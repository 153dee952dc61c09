-- ===== src/Tests/Plugins.antt =====
-- plugins: the theorems at concrete inputs.
use algiz.Base.{ℕ, suc, ◌≡◌, ◌↔◌, ◌++◌, refl, [], ◌∷◌, Option, none, some, true, false, take, arith}
use algiz.Base.Bytes.{Bytes, codes}
use algiz.Http.Client.{new_session}
use algiz.Http.Request.{fresh}
use algiz.Http.Response.{to_string}
use algiz.Http.Server.{upgrade, handle_websocket_message, guid}
use algiz.Http.Session.{World, Handlers, handshake}
use algiz.Http.WebSocket.{send_websocket}
use algiz.Plugins.Echo.{contains, handle_connect, handle_message}
use algiz.Plugins.Echo.Round.{upgrade-echo_answers}
use algiz.Plugins.Loading.{Host, unload_plugins, unloaded, unload_plugins_lem}
use algiz.Plugins.ModuleCache.{ModuleCache, get}
use algiz.Plugins.ModuleCache.Bounded.{IsBounded, cache_of, get-IsBounded}
use algiz.Plugins.Host.{disable, approve, Handler, before_multi, asks, before_multi-asks}
use algiz.Plugins.Hmac.{compare_hmac, compare_hmac_iff}

-- Two handlers that count: one forbids the event, one allows it for good.
abbrev forbid : Handler ℕ
forbid n should_pass = (disable, suc n)

abbrev allow : Handler ℕ
allow n should_pass = (approve, suc n)

before_multi-asks_example :
    before_multi 0 ((some forbid ∷ none ∷ []) ++ some allow ∷ some forbid ∷ []) true
    ≡ asks (before_multi 0 (some forbid ∷ none ∷ []) true) allow (some forbid ∷ [])
before_multi-asks_example =
    before_multi-asks 0 (some forbid ∷ none ∷ []) allow (some forbid ∷ []) true

compare_hmac_iff_example :
    (compare_hmac (codes "ab") (codes "ba") ≡ some true) ↔ (codes "ab" ≡ codes "ba")
compare_hmac_iff_example = compare_hmac_iff (codes "ab") (codes "ba") refl

abbrev next_pointer : World ℕ → ℕ
next_pointer w = w.kept

abbrev keep_pointer : ℕ → ℕ → ℕ
keep_pointer pointer kept = suc kept

-- A server with the echo as its only plugin.
abbrev echoing_server : Handlers ℕ
echoing_server = record {
  get_handlers = [];
  post_handlers = [];
  connection_handlers = some (handle_connect next_pointer keep_pointer) ∷ [];
  message_handler = λ w pointer. some handle_message;
  close_handler = λ w pointer. none;
  sha1 = λ text. take 20 text;
}

abbrev new_world : World ℕ
new_world = record {
  sessions = λ client. new_session;
  message_handlers = λ client. none;
  close_handlers = λ client. none;
  kept = 0;
}

abbrev a_key : Bytes
a_key = codes "dGhlIHNhbXBsZSBub25jZQ=="

upgrade-echo_answers_example :
    ((handle_websocket_message echoing_server 4
        (codes "hi")
        (upgrade echoing_server 4 fresh [] (codes "echo" ∷ []) a_key new_world)).sessions
      4).output
    ≡ new_session.output
      ++ (to_string (handshake (take 20 (a_key ++ guid)) (codes "echo"))
          ++ send_websocket (codes "hi") false 255)
unfolding new_session contains
upgrade-echo_answers_example =
    upgrade-echo_answers echoing_server 4 next_pointer keep_pointer fresh [] (codes "echo" ∷ [])
      a_key (codes "hi") new_world refl (λ v. refl) refl refl refl

abbrev small_cache : ModuleCache
small_cache = record {
  max_size = 1;
  cache = record { path = codes "a"; last_used = 3; handle = 8; function = 9 } ∷ [];
  closed = [];
}

abbrev opens : Bytes → Option ℕ
opens path = some 5

abbrev finds : ℕ → Option ℕ
finds handle = some 6

get-IsBounded_example : IsBounded (cache_of (get opens finds 7 (codes "b") small_cache))
get-IsBounded_example =
    get-IsBounded opens finds 7 (codes "b") small_cache (omega arith) (omega arith)

abbrev two_plugins : Host
two_plugins = record {
  plugins =
      record { path = codes "a"; plugin = 1; handle = 2 }
      ∷ record { path = codes "b"; plugin = 3; handle = 4 }
      ∷ [];
  cleaned = [];
  closed = [];
}

unload_plugins_lem_example : unload_plugins two_plugins ≡ some (unloaded two_plugins)
unload_plugins_lem_example = unload_plugins_lem two_plugins
