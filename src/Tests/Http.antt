-- ===== src/Tests/Http.antt =====
-- http: the theorems at concrete inputs.
use algiz.Base.{
  suc, ◌+◌, ◌≤◌, ◌≡◌, ◌↔◌, refl, List, [], ◌∷◌, ◌++◌, some, true, false, not, if◌then◌else◌, length,
  map, arith,
}
use algiz.Base.Bytes.{Bytes, codes, beq, flat, find_byte}
use algiz.Base.Map.{lookup, contains}
use algiz.Util.Numbers.{decimal}
use algiz.Http.Request.{Request, reading_headers, reading_content, get, fresh, ok, Span, done}
use algiz.Http.Request.Auth.{
  check_authentication, bad_username, bad_password, success, credentials,
  check_authentication-credentials,
}
use algiz.Http.Request.Params.{get_parameters}
use algiz.Http.Request.Params.RoundTrip.{print_query, insert_all, get_parameters-print_query}
use algiz.Http.Request.Ranges.{valid, is_nil, parse_range, max_size}
use algiz.Http.Request.Ranges.Bounds.{valid_iff, IsServable}
use algiz.Http.Request.Ranges.Open.{open_range_refused}
use algiz.Http.Request.Lines.{Conn, PostMax, unset, handle_line, finish, end_headers}
use algiz.Http.Request.Lines.Body.{feed, filled, feed_chunks, keep_alive_replays}
use algiz.Http.Request.Lines.Head.{
  print_header, print_target, add_all, with_headers, opened, feed_head,
}
use algiz.Http.Response.{Response, to_string}
use algiz.Http.Response.Codes.{description}
use algiz.Http.Response.Text.{read_head, head_lines, read_head-to_string}
use algiz.Http.WebSocket.{Ws, handle_header, conclude, send_websocket, send_opcode}
use algiz.Http.WebSocket.Frames.{frame_header, begun, here, mask_at, handle_header-frame}
use algiz.Http.WebSocket.Delivery.{ready}
use algiz.Http.WebSocket.Sending.{read_frame, read_frame-send_websocket}
use algiz.Util.Url.{escape_url}

abbrev no_options : Bytes → PostMax
no_options path = unset

abbrev keep_order : List Span → List Span
keep_order spans = spans

abbrev with_credentials : Request
with_credentials = record fresh {
  headers = (codes "authorization", credentials (codes "me") (codes "pw")) ∷ [];
}

check_authentication-credentials_example :
    check_authentication with_credentials (codes "me") (codes "no") ≡ (
      if not (beq (codes "me") (codes "me"))
      then bad_username
      else if not (beq (codes "pw") (codes "no"))
      then bad_password
      else success)
unfolding fresh lookup
check_authentication-credentials_example =
    check_authentication-credentials with_credentials (codes "me") (codes "pw") (codes "me")
      (codes "no") (omega arith, (omega arith, (omega arith, (omega arith, (omega arith, tt)))))
      (omega arith, (omega arith, tt)) refl

abbrev one_pair : List (Bytes × Bytes)
one_pair = (codes "k", codes "&") ∷ []

get_parameters-print_query_example :
    get_parameters (codes "/p" ++ b'?' ∷ print_query one_pair) true ≡ ok (insert_all one_pair [])
unfolding escape_url
get_parameters-print_query_example =
    get_parameters-print_query (codes "/p") one_pair (omega arith, (omega arith, tt))
      ((((omega arith, tt), omega arith), ((omega arith, tt), omega arith)), tt)

abbrev with_ranges : Request
with_ranges = record fresh { ranges = (0, 4) ∷ (5, 9) ∷ [] }

valid_iff_example : ((valid keep_order 20 with_ranges).0 ≡ true) ↔ (
    (with_ranges.suffix_length ≤ 20)
    × IsServable 20 with_ranges.suffix_length (keep_order with_ranges.ranges))
unfolding is_nil fresh
valid_iff_example = valid_iff keep_order 20 with_ranges refl

open_range_refused_example :
    (r : Request) × (parse_range (codes "bytes=" ++ (decimal 10 ++ b'-' ∷ [])) fresh ≡ ok r)
    × (r.ranges ≡ (10, max_size) ∷ [])
    × ((valid keep_order 100 r).0 ≡ false)
open_range_refused_example =
    open_range_refused keep_order 10 100 fresh (λ span. refl) (omega arith) (omega arith)

abbrev in_content : Conn
in_content = record {
  request = record fresh { mode = reading_content; content_length = 3; length_remaining = 3 };
  max_read = 3;
  keep_alive = false;
}

feed_chunks_example :
    feed no_options in_content ((codes "ab" ∷ []) ++ codes "c" ∷ [])
    ≡ finish in_content (filled in_content (flat (codes "ab" ∷ []) ++ codes "c"))
unfolding fresh
feed_chunks_example =
    feed_chunks no_options in_content (codes "ab" ∷ []) (codes "c") refl refl (omega arith)

abbrev in_headers : Conn
in_headers = record {
  request = record fresh { mode = reading_headers; method = get; path = codes "/" };
  max_read = 0;
  keep_alive = true;
}

keep_alive_replays_example :
    (c₁ : Conn) × (c₂ : Conn) × (handle_line no_options in_headers (codes "\r") ≡ ok (done, c₁))
    × (handle_line no_options c₁ (codes "x") ≡ ok (done, c₂))
    × (c₂.request.path ≡ c₁.request.path)
    × (c₂.request.method ≡ c₁.request.method)
unfolding fresh contains lookup
keep_alive_replays_example =
    keep_alive_replays no_options in_headers (codes "x") refl refl refl refl

abbrev at_start : Conn
at_start = record { request = fresh; max_read = 0; keep_alive = false }

abbrev one_header : List (Bytes × Bytes)
one_header = (codes "Host", codes "a") ∷ []

no_query : get_parameters (codes "/p") true ≡ ok []
unfolding get_parameters find_byte
no_query = refl

feed_head_example :
    feed no_options at_start
      (print_target get (codes "/p") ∷ (map print_header one_header ++ codes "\r" ∷ []))
    ≡ ok (
        end_headers (
          with_headers
            (opened at_start get (codes "/p") [])
            (add_all one_header at_start.request.headers)))
unfolding fresh
feed_head_example =
    feed_head no_options at_start get (codes "/p") [] one_header (ground arith)
      (omega arith, (omega arith, tt)) no_query
      (
        (
          (omega arith, (omega arith, (omega arith, (omega arith, tt)))),
          ground arith,
          ground arith,
          ground arith,
        ),
        tt,
      )
      refl

abbrev page : Response
page = record {
  code = 200;
  mime = codes "a/b";
  content = codes "hi";
  charset = codes "u";
  headers = [];
  no_content_type = false;
}

read_head-to_string_example :
    read_head (suc (length (head_lines page (codes "OK")))) (to_string page)
    ≡ some (head_lines page (codes "OK"), page.content)
unfolding description
read_head-to_string_example =
    read_head-to_string page (codes "OK") refl
      ((omega arith, (omega arith, (omega arith, tt))), (omega arith, tt), tt)

abbrev client : Ws
client = ready true 0 0 0 1000

handle_header-frame_example :
    handle_header client (frame_header true 1 7 2 (codes "hi"))
    ≡ conclude
        (begun client true 7 2 (codes "hi"))
        (frame_header true 1 7 2 (codes "hi"))
        (here 2 (codes "hi") + mask_at 2 + 4)
handle_header-frame_example =
    handle_header-frame client true 1 7 2 (codes "hi") (omega arith) (omega arith) (omega arith)
      (omega arith) (omega arith)

read_frame-send_websocket_example :
    read_frame (send_websocket (codes "hi") false 0 ++ codes "x")
    ≡ some (record {
      fin = true;
      opcode = send_opcode false 0;
      payload = codes "hi";
      rest = codes "x";
    })
unfolding send_opcode
read_frame-send_websocket_example =
    read_frame-send_websocket (codes "hi") (codes "x") false 0 (omega arith) (omega arith)
