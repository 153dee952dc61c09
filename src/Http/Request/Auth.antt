-- ===== src/Http/Request/Auth.antt =====
-- http/Request: `checkAuthentication` and `getHeader`.
use algiz.Base.{
  ◌+◌, ◌≡◌, refl, [], ◌∷◌, ◌++◌, Option, none, some, not, if◌then◌else◌, take, drop,
  take-length-append, drop-append_suc, ap, ◌∙◌,
}
use algiz.Base.Bytes.{Bytes, codes, beq, find_byte, find_byte-append, IsBytes, Lacks}
use algiz.Base.Map.{lookup}
use algiz.Util.Base64.{base64_encode, base64_decode}
use algiz.Util.Base64.RoundTrip.{base64_decode-base64_encode}
use algiz.Http.Request.{Request, Params}

pub data AuthenticationResult : Type 0 where
  invalid missing malformed bad_username bad_password success : AuthenticationResult

-- The test of a decoded `user:password`.
unfoldable pub check_decoded : Bytes → Bytes → Bytes → AuthenticationResult
check_decoded username password decoded = elim (find_byte b':' decoded) [
  | none ↦ malformed
  | some colon ↦
      if not (beq (take colon decoded) username)
      then bad_username
      else if not (beq (drop (colon + 1) decoded) password)
      then bad_password
      else success
]

check_header : Bytes → Bytes → Option Bytes → AuthenticationResult
check_header username password none = missing
check_header username password (some auth) =
    if not (beq (take 6 auth) (codes "Basic "))
    then malformed
    else check_decoded username password (base64_decode (drop 6 auth))

unfoldable pub check_authentication : Request → Bytes → Bytes → AuthenticationResult
unfolding check_header
check_authentication r username password =
    check_header username password (lookup (codes "authorization") r.headers)

-- `{}` for a header that is not there.
unfoldable pub get_header : Params → Bytes → Bytes
get_header headers name = elim (lookup name headers) [ none ↦ [] | some value ↦ value ]

-- The header that a client sends for a name and a password.
abbrev pub credentials : Bytes → Bytes → Bytes
credentials user pass = codes "Basic " ++ base64_encode (user ++ b':' ∷ pass)

basic_prefix :
    (s : Bytes)
    → (take 6 (codes "Basic " ++ s) ≡ codes "Basic ") × (drop 6 (codes "Basic " ++ s) ≡ s)
basic_prefix s = (refl, refl)

decided :
    (user pass username password : Bytes)
    → Lacks b':' user
    → check_decoded username password (user ++ b':' ∷ pass) ≡ (
        if not (beq user username)
        then bad_username
        else if not (beq pass password)
        then bad_password
        else success)
unfolding check_decoded
decided user pass username password h =
    rw (find_byte-append b':' user pass h, check_decoded)
      (rw (take-length-append user (b':' ∷ pass), drop-append_suc user b':' pass) refl)

-- A client that sends a name with no colon and a password is let in exactly when both are the ones
-- that are asked for; otherwise the result says which of the two is wrong, the name first.
pub check_authentication-credentials :
    (r : Request) (user pass username password : Bytes)
    → IsBytes (user ++ b':' ∷ pass)
    → Lacks b':' user
    → lookup (codes "authorization") r.headers ≡ some (credentials user pass)
    → check_authentication r username password ≡ (
        if not (beq user username)
        then bad_username
        else if not (beq pass password)
        then bad_password
        else success)
unfolding check_authentication
check_authentication-credentials r user pass username password hb hl e =
    rw (e, check_header)
      (ap (check_decoded username password) (base64_decode-base64_encode (user ++ b':' ∷ pass) hb)
        ∙ decided user pass username password hl)
