-- ===== src/Tests/Client.antt =====
-- http/Client and http/Server: the theorems at concrete inputs.
use algiz.Base.{ℕ, suc, ◌≡◌, refl, List, [], ◌∷◌, ◌++◌, none, some, true, false, arith, map, ◌⊎◌}
use algiz.Base.Bytes.{Bytes, codes, flat, find_byte}
use algiz.Http.Request.{Method, ok, undefined, fresh}
use algiz.Http.Request.Lines.Head.{headed, blank}
use algiz.Http.Client.{new_session, http_client, handle_message, handle_input}
use algiz.Http.Client.Apart.{Has, LeaveAlone, handle_message-apart}
use algiz.Http.Client.Feeding.{requested, finished, head_lines, handle_read-head}
use algiz.Http.Client.Refused.{answers, leaving_with, deliver-refused}
use algiz.Http.Session.{World, Handlers, change, HandlerArgs}
use algiz.Net.Read.{going, handled, wild, handled_then, handle_read}
use algiz.Net.Read.Lines.{deliver, ended}
use algiz.Plugins.Host.{Handler, pass, Keeps-none, Keeps-some}
use algiz.Http.Server.Kept.{AtHandler, AtMessage}
use algiz.Http.Request.Params.{get_parameters}
use algiz.Http.Request.Lines.{PostMax, unset, add_header}
use algiz.Base.Map.{contains, lookup, insert}
use algiz.Util.Case.{to_lower}

abbrev no_options : Bytes → PostMax
no_options path = unset

-- The plugins keep a count of the requests.
abbrev count_request : Handler (HandlerArgs ℕ)
count_request args should_pass =
    (pass, record args { world = record (args.world) { kept = suc args.world.kept } })

abbrev counting : Handlers ℕ
counting = record {
  get_handlers = some count_request ∷ [];
  post_handlers = [];
  connection_handlers = [];
  message_handler = λ w pointer. none;
  close_handler = λ w pointer. none;
  sha1 = λ text. text;
}

-- Every client has just been accepted.
abbrev fresh_world : World ℕ
fresh_world = record {
  sessions = λ client. new_session;
  message_handlers = λ client. none;
  close_handlers = λ client. none;
  kept = 0;
}

abbrev one_header : List (Bytes × Bytes)
one_header = (codes "Host", codes "a") ∷ []

no_query : get_parameters (codes "/") true ≡ ok []
unfolding get_parameters find_byte
no_query = refl

no_content_length :
    contains
      (codes "content-length")
      (headed new_session.conn Method.get (codes "/") [] one_header).request.headers
    ≡ false
unfolding new_session contains lookup add_header insert to_lower fresh
no_content_length = refl

handle_read-head_example :
    handle_read (http_client no_options counting 3) 1024 fresh_world [] (
      flat (
        map ended
          (head_lines no_options counting 3 Method.get (codes "/") one_header ++ blank ∷ [])))
    ≡ handled_then
        (http_client no_options counting 3)
        (requested no_options counting 3
          (finished no_options counting 3
            (headed new_session.conn Method.get (codes "/") [] one_header))
          fresh_world)
        (λ w'. going w' [])
unfolding new_session
handle_read-head_example =
    handle_read-head no_options counting 3 1024 fresh_world Method.get (codes "/") [] one_header
      (refl, refl) refl refl refl (ground arith) (omega arith, tt) no_query
      (
        (
          (omega arith, (omega arith, (omega arith, (omega arith, tt)))),
          ground arith,
          ground arith,
          ground arith,
        ),
        tt,
      )
      (
        (
          omega arith,
          (
            omega arith,
            (
              omega arith,
              (
                omega arith,
                (
                  omega arith,
                  (
                    omega arith,
                    (
                      omega arith,
                      (
                        omega arith,
                        (
                          omega arith,
                          (
                            omega arith,
                            (
                              omega arith,
                              (omega arith, (omega arith, (omega arith, (omega arith, tt)))),
                            ),
                          ),
                        ),
                      ),
                    ),
                  ),
                ),
              ),
            ),
          ),
        ),
        (
          (
            omega arith,
            (
              omega arith,
              (
                omega arith,
                (omega arith, (omega arith, (omega arith, (omega arith, (omega arith, tt))))),
              ),
            ),
          ),
          ((omega arith, tt), tt),
        ),
      )
      no_content_length (omega arith) (omega arith)

deliver-refused_example :
    deliver (http_client no_options counting 3) fresh_world (codes "a" ∷ codes "b" ∷ []) []
    ≡ going (change 3 (leaving_with (answers (codes "a" ∷ codes "b" ∷ []))) fresh_world) []
unfolding new_session
deliver-refused_example =
    deliver-refused no_options counting 3 fresh_world (codes "a") (codes "b" ∷ []) [] (refl, refl)
      refl ((omega arith, tt), ((omega arith, tt), tt))

alone : LeaveAlone counting 3 4 new_session
alone = record {
  on_get = (Keeps-some (AtHandler 3 (Has 4 new_session)) count_request (λ args b h. h), tt);
  on_post = tt;
  on_connection = tt;
  on_message = λ w pointer. Keeps-none (AtMessage 3 (Has 4 new_session));
  on_close = λ w pointer handler e. absurd (ground arith);
}

handle_message-apart_example :
    ((v : World ℕ) × (handle_message no_options counting 3 fresh_world (codes "GET / HTTP/1.1")
        ≡ handled v)
      × (v.sessions 4 ≡ new_session))
    ⊎ (((fresh_world.sessions 3).is_websocket ≡ false)
        × ((handle_input no_options counting 3 (codes "GET / HTTP/1.1") fresh_world).0 ≡ undefined)
        × (handle_message no_options counting 3 fresh_world (codes "GET / HTTP/1.1") ≡ wild))
handle_message-apart_example =
    handle_message-apart no_options counting 3 4 fresh_world (codes "GET / HTTP/1.1")
      (λ e. omega arith) alone
