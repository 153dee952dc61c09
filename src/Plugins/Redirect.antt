-- ===== src/Plugins/Redirect.antt =====
-- plugins/redirect/Redirect: where it sends a client.
use algiz.Base.{◌==◌, [], ◌∷◌, ◌++◌, Option, none, some, Bool, true, false, not, if◌then◌else◌}
use algiz.Base.Bytes.{Bytes, codes, beq, is_empty}
use algiz.Base.Map.{lookup}
use algiz.Http.Request.Lines.{PostMax}
use algiz.Http.Client.{close_unless_kept}
use algiz.Http.Request.{Request}
use algiz.Http.Request.Params.{path_with_parameters}
use algiz.Http.Response.{response, set_header, set_no_content_type}
use algiz.Http.Session.{HandlerArgs, Handlers, send_response}
use algiz.Plugins.Host.{CancelableResult, pass, approve}

drop_slash : Bytes → Bytes
drop_slash [] = []
drop_slash (b ∷ []) = if b == b'/' then [] else b ∷ []
drop_slash (b ∷ c ∷ s) = b ∷ drop_slash (c ∷ s)

-- `postinit`, with the string of the configuration.
unfoldable pub get_base : Option Bytes → Bytes
unfolding drop_slash
get_base none = codes "https"
get_base (some []) = codes "https"
get_base (some (b ∷ base)) = drop_slash (b ∷ base)

or_nothing : Option Bytes → Bytes
or_nothing none = []
or_nothing (some value) = value

-- The base that the target stands behind.
unfoldable pub base_view : Bytes → Request → Bytes
unfolding or_nothing
base_view base request =
    let host = or_nothing (lookup (codes "host") request.headers) in
    if beq base (codes "https")
    then (if is_empty host then base else codes "https://" ++ host)
    else base

has_slash : Bytes → Bool
has_slash [] = false
has_slash (b ∷ path) = b == b'/'

unfoldable pub location : Bytes → Request → Bytes
unfolding base_view has_slash path_with_parameters
location base request =
    if not (has_slash request.path)
    then base_view base request ++ b'/' ∷ path_with_parameters request.path request.parameters
    else base_view base request ++ path_with_parameters request.path request.parameters

module _ {ℓ} {σ : Type ℓ} (post_max : Bytes → PostMax) (handlers : Handlers σ) where
  unfoldable pub handle : Bytes → HandlerArgs σ → Bool → CancelableResult × HandlerArgs σ
  unfolding location
  handle base args false = (pass, args)
  handle base args true = (
    approve,
    record args {
      world = close_unless_kept post_max handlers args.client (
          send_response args.client
            (set_header (codes "location") (location base args.request)
              (set_no_content_type true (response 301 [] (codes "text/html"))))
            args.world);
    },
  )
