-- ===== src/Plugins/NotFound.antt =====
-- plugins/default404/Default404, and the filter of plugins/countryfilter/CountryFilter. The configuration,
-- the reading and rendering of a file, the extension of a path and the country of an address are arguments.
use algiz.Base.{List, [], Option, none, some, Bool, true, false, not, ◌&&◌, if◌then◌else◌}
use algiz.Base.Bytes.{Bytes, codes, is_empty}
use algiz.Http.Response.{response, set_mime}
use algiz.Http.Server.{close}
use algiz.Http.Session.{HandlerArgs, Handlers, send_response}
use algiz.Plugins.Echo.{contains}
use algiz.Plugins.Host.{CancelableResult, pass, approve}

-- What is sent for a path: `text` and `is_template` are the file of the configuration, if there is one.
unfoldable pub get_content : (Bytes → Bytes → Bytes) → Option (Bytes × Bool) → Bytes → Bytes
get_content render none path = codes "404 Not Found"
get_content render (some (text, is_template)) path =
    let content = if is_template then render text path else text in
    if is_empty content then codes "404 Not Found" else content

abbrev name_of : Option Bytes → Bytes
name_of none = codes "Unknown"
name_of (some name) = name

in_list : Option (List Bytes) → Bytes → Bool → Bool
in_list none name default = default
in_list (some names) name default = contains name names

abbrev name_or_empty : Option Bytes → Bytes
name_or_empty none = []
name_or_empty (some text) = text

-- `CountryFilter::filter`: without a data base everything passes, and an address without a country is in
-- the country Unknown. The second part is what is written to the descriptor.
unfoldable pub filter :
    Option (List Bytes) → Option (List Bytes) → Option Bytes → Option (Option Bytes) → Bool × Bytes
unfolding in_list
filter whitelist blacklist message none = (true, [])
filter whitelist blacklist message (some country) =
    let name = name_of country in
    if in_list whitelist name true && not (in_list blacklist name false)
    then (true, [])
    else (false, name_or_empty message)

module _ {ℓ} {σ : Type ℓ} (handlers : Handlers σ) where
  unfoldable pub handle :
      (Bytes → Bytes → Bytes)
      → Option (Bytes × Bool)
      → HandlerArgs σ
      → Bool
      → CancelableResult × HandlerArgs σ
  unfolding get_content
  handle render file args false = (pass, args)
  handle render file args true = (
    approve,
    record args {
      world = close handlers args.client (
          send_response args.client
            (record (set_mime (codes "text/html") (response 404 [] (codes "text/html"))) {
              content = get_content render file args.request.path;
            })
            args.world);
    },
  )
