-- ===== src/Lib.antt =====
-- The core of algiz, a web server with plugins: its text utilities, the reading of requests, the
-- printing of responses, the WebSocket protocol, the tables of its connections, the handlers of
-- requests and messages, single plugins, and the chess plugin's board, matches and commands.
--
-- How the parts interact. src/net/Server.cpp reads what a client sends and hands each line or chunk
-- to `Client::handleInput` of src/http/Client.cpp, which gives it to the request parser of
-- src/http/Request.cpp or, on a WebSocket, to the frame reader. The parser uses the utilities of
-- src/util. A plugin answers with a `Response`, or gets the message of a WebSocket; the messages of
-- src/plugins/probchess become moves of a match, which changes its board.
--
-- Which file models which part:
--   Util/Base64 and Util/Base64/Table: src/util/Base64.cpp, base64Encode and base64Decode.
--   Util/Url: escapeURL, charHex, hexString and unescape of src/util/Util.cpp. `unescape` is
--     `none` where the code reads past the end of its argument.
--   Util/Split: split of src/util/Util.cpp and join of include/util/Util.h.
--   Util/Case: toLower, toUpper, isNumeric and findLast of src/util/Util.cpp.
--   Util/Escape: escape, escapeQuotes, escapeHTML and escapeANSI of src/util/Util.cpp.
--   Util/Numbers: parseLong and parseUlong of src/util/Util.cpp, in base 10, and std::to_string.
--   Util/Mime: src/util/MIME.cpp.
--   Http/Request and its children: src/http/Request.cpp. Lines has handleLine and absorbPOST,
--     Params getPath, getParameters and pathWithParameters, Ranges parseRange, valid and
--     hackRanges, Auth checkAuthentication and getHeader. `Conn` is the request with the fields of
--     the client that handleLine changes. An exception is a constructor of `Outcome`.
--   Http/Response and Http/Response/Codes: src/http/Response.cpp.
--   Http/WebSocket: the WebSocket half of handleInput, sendWebSocket and closeWebSocket of
--     src/http/Client.cpp. What is handed on to the server is a list of events.
--   Http/Request/Failed: what a line that ends in a ParseError leaves in the request.
--   Http/Session, Http/Server: src/http/Server.cpp, handleGET, handlePOST,
--     handleWebSocketMessage, closeWebSocket, the answers and the registration of handlers.
--     `Session` has the fields of a client, and of net/Server whether it is connected, whether it
--     is queued to be closed, and what is still to be written.
--   Http/Client: handleInput and handleRequest of src/http/Client.cpp and the message handler of
--     src/Core.cpp. `http_client` is the client that Net/Read reads for.
--   Net/Server and its children: the tables of src/net/Server.cpp with accept, queueAccept,
--     queueClose, remove, removeClient, close and handleWriteEmpty. An exception is `none`. Steps
--     has what the callbacks do as steps in any order; `Reach` are the states that come about.
--   Net/Read: handleRead and isMessageComplete of src/net/Server.cpp, over an interface of a
--     client.
--   Chess/Square: Square.cpp, Color.cpp and Move.cpp of src/plugins/probchess.
--   Chess/Board, Chess/Check: src/plugins/probchess/Board.cpp. A board is a function of row and
--     column; a piece is a value, as no two boards share one.
--   Chess/Moves: canMoveTo of the six pieces and Piece::filter. Chess/Moves/Rules has the rules of
--     chess that it is compared with.
--   Chess/Match, Chess/Match/Turn, Chess/Match/Play: src/plugins/probchess/Match.cpp and
--     HumanMatch.cpp. The parent's tables are fields of the match, and so are the messages sent.
--   Chess/Fen: loadFEN and toFEN of src/plugins/probchess/Board.cpp.
--   Chess/Lobby, Chess/Lobby/Joining, Chess/Lobby/Commands:
--     src/plugins/probchess/ProbabilityChess.cpp, for matches between people. A match is loaded
--     with its parent's tables and stored back after each call.
--   Plugins/Host: before and beforeMulti of include/plugins/PluginHost.h.
--   Plugins/Hmac: compareHMAC of src/plugins/game3ci/Game3CI.cpp.
--   Plugins/Loading: src/PluginHost.cpp.
--   Plugins/Echo, Plugins/Redirect: src/plugins/wsecho/WSEcho.cpp,
--     src/plugins/redirect/Redirect.cpp.
--   Plugins/NotFound: src/plugins/default404/Default404.cpp and the filter of
--     src/plugins/countryfilter/CountryFilter.cpp.
--   Plugins/ModuleCache: src/plugins/fileserv/ModuleCache.cpp.
--   Base: shared names, bytes, maps as ordered association lists and as functions, and integers.
--   Tests: the theorems at concrete inputs.
--
-- Bounds and fuel. Bytes are numbers below 256, where a theorem needs it as a hypothesis. The loops
-- of split and of the query parser run on as much fuel as the text is long, and each round takes at
-- least one byte. Sizes wrap at 2 ^ 64 where the code's test wraps. `roll` and `afterMove` loop
-- until the dice fit, so they take fuel for each loop and give `none` where it ends; what is stated
-- of a move holds for every fuel. `getPieces` takes fuel too. `handleRead` has as much fuel as
-- there are bytes to read, and its loop over the lines one more than the buffer is long; each round
-- takes a byte. `remove` calls itself through the close handler, so it takes fuel: one unit is
-- enough in every state that is reached. `unloadPlugins` has a unit for each plugin.
--
-- Arguments for what the code calls: `sort` for std::sort, `post_max` for the option of a path
-- (not set, a number, or refused because the path is outside the web root), `rand` for the C
-- function, `begin` for the first number of an unordered set, `pending` for the length of an output
-- buffer, `dlopen` and `dlsym`, the SHA1 digest, the clock, and the handlers of other plugins, which
-- do not throw. libevent gives no address that is in use, and the system no descriptor that is open.
-- A read or a write out of range is a result of its own, where one is modelled `undefined` or `none`.
--
-- Not modelled: sockets, TLS and threads, files and processes, the configuration in files, the
-- machine players of the chess plugin, clocks and logging.

pub mod Base
pub mod Util
pub mod Http
pub mod Net
pub mod Chess
pub mod Plugins
pub mod Tests
