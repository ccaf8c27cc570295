-- ===== src/Lib.antt =====
-- agent-httpd: a verification library for the core of the HTTP server.
--
-- The server reads requests from sockets (src/http/http.c), parses and frames them, checks the
-- client against its limiters, and dispatches. Modelled here are the parts that decide on bytes and
-- shared tables; sockets, processes and the file system are not.
--
-- Chunk: the chunked transfer decoder, src/http/http_chunk.c with HttpChunkState of src/httpd.h.
--   `feed` is http_dechunk_feed, `dechunk` is http_dechunk; `round_in` is one round of its loop, by
--   phase. The wire bytes are a list, the cursor an index. The loop takes as fuel one round more than
--   there are bytes, and each round that goes on moves the cursor.
-- LoginLimit: the login failure limiter, src/security/loginlimit.c. `blocked_for`, `fail` and
--   `success` are login_limiter_blocked_for, _fail and _success on a table of 1024 slots; the loops
--   run over at most eight probes.
-- RateLimit: the request limiter, src/security/ratelimit.c. `rate_limit_allow`, `bucket_spend` and
--   `rate_limit_init` keep their names; `allow` is rate_limit_allow with the limiter on, on a table of
--   4096 slots, and its loop runs over at most eight probes. The
--   int `tokens` of a bucket is a difference of two numbers, since the cast of a long pause is negative.
--   RateLimit.Trusted holds the configured networks, rate_limit_set_trusted_proxies and
--   rate_limit_is_trusted; RateLimit.Hop holds rate_limit_parse_xff and rate_limit_key_from_peer.
--   inet_pton and inet_aton are parameters, from a text to the address in network order.
-- Json: the JSON helpers, src/core/minijson.c. Buffer and Writer hold the growable buffer and
--   sb_json_str, with realloc as a parameter; Json holds the reader, jread_string, jskip_value and
--   jfind_value. The loops that skip several bytes a round take as fuel one round more than there are
--   bytes. `grow` has 65 rounds, since after 64 doublings a size_t is 0 or the size is reached.
-- Text: the string helpers of src/core/util.c under their own names. A size is the buffer's; what
--   reads behind the NUL is `none`, and html_escape gives the cursor's offset with the bytes written.
-- Host: split_host, host_is_allowed and request_is_same_origin of src/core/util.c, with the allowlist
--   as an argument. The loop over the entries takes as fuel one round more than there are bytes.
--   Host.Entries reads the list as names with or without a port.
-- Request: the parser, src/http/http_parse.c. `parse_request`, `parse_headers`, `parse_header_line` and
--   `consume_eol` keep their names; `header_loop` is the loop over the header lines, with one round more
--   than there are bytes, since a round that leaves a line's terminator is followed by one that moves
--   behind it. `known_headers` is the chain of comparisons, in its order. The line-ending policy and
--   g_body_spool_bytes are arguments.
-- Sql: the statement guard of src/agent/sqlite_tool.c under the code's names; Sql.Bare holds
--   db_validate_write_stmt, and Sql.Cte the part on WITH prefixes and `db_validate_write`. A refusal
--   stands for its message, `none` for NULL. The loops take as fuel one round more than there are bytes,
--   and every round moves the pointer.
-- Response: the serializer, src/http/http_resp.c. `build_response` and has_extra_header keep their
--   names; `header_lines` is the sequence of snprintf calls with their conditions, `emit` is one call on
--   the cursor. The scan of the extra headers takes as fuel one round more than there are bytes.
-- Route: the login form of src/http/http_route.c, `handle_login` on the limiter's table of LoginLimit,
--   with `form_field` and is_safe_back, and the tests for a Vite page and a WebSocket upgrade. The
--   credential check and the making of a session (src/security/auth.c) are parameters. Route.Dispatch is
--   the choice of a handler, is_fast_request and `process_request`, whose result is the handler's name,
--   and Route.Paths the tests of paths that it asks, from src/http/static.c, src/security/auth.c,
--   src/core/framework.c, src/agent/llm.c and src/agent/tools_api.c.
-- Auth: src/security/auth.c under the code's names. Auth holds the htpasswd table and the credentials,
--   Auth.Realm the realm file and the check of a header, Auth.Sessions the session file with its cookies,
--   Auth.Gate the public paths and the cookie's header. A file is its bytes, before and after; `crypt` and
--   the bundled bcrypt are parameters, times and the token are arguments. The loops take as fuel one round
--   more than there are bytes, and each round takes a line, a segment or an entry. Sessions.Table reads
--   the file as a list of sessions, and Sessions.Loops what the loops do with it;
--   Sessions.Cookies writes a header from a list of cookies, and Sessions.Collected has the tokens in it.
-- Fcgi: the FastCGI records of src/cgi/fastcgi.c. `serve` is fastcgi_handle_connection up to the request,
--   on the bytes that arrive before the connection is closed; Fcgi.Built is the label build_request.
--   Fcgi.Client is what `forward_to_fcgi` sends, Fcgi.Relay what the server answers and what the client
--   passes on. `recv_n` has the size of the buffer as an argument, and a read of more is an outcome of
--   its own. The loops take as fuel one round more than there are bytes, and every round takes a byte.
-- Worker: the prefork pool, src/core/worker.c, with drain_slow_queue and go_slow of src/core/event.c. A
--   pool is numbers, the operations of the parent are functions and `Step` is what parent, workers and
--   the signals may do next, a failed receipt included; the ring of waiting connections is a list.
-- Range: the byte ranges of src/http/static.c. `parse_range` keeps its name; its answer is `whole` for
--   0, `unsatisfiable` for -1, and `part` with the start and the length for 1. `strtoll` is the C
--   library's, in base 10. Validators holds etag_matches and accepts_gzip of the same file; a quality is
--   kept as the sign of its int.
--
-- Numbers are natural numbers. A C `unsigned` wraps where the code lets it; a signed sum or shift that
-- does not fit has no meaning in C and is an outcome of its own. A C string is the list of its bytes
-- before the terminating NUL. Time is an argument. A critical section under one mutex is one step.
--
-- Not modelled: sockets, descriptors and processes as such, the file system, what the handlers do,
-- third-party libraries (SQLite, PostgreSQL, MySQL, bcrypt), and the agent's network clients.
pub mod Base
pub mod Chunk
pub mod LoginLimit
pub mod Json
pub mod RateLimit
pub mod Range
pub mod Text
pub mod Host
pub mod Request
pub mod Sql
pub mod Response
pub mod Route
pub mod Fcgi
pub mod Auth
pub mod Worker
pub mod Validators
