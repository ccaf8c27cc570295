-- ===== src/Fcgi/Client.antt =====
-- The client of src/cgi/fastcgi.c: the bytes that `forward_to_fcgi` sends to a backend before it reads
-- the answer. The socket takes all that is sent.
use agent_httpd.Base.{
  ℕ, zero, suc, ◌+◌, ◌-◌, ◌/◌, ◌%◌, ◌^◌, min, Option, none, some, List, [], ◌∷◌, ◌++◌, length, take,
  drop, ltb, ◌==◌, if◌then◌else◌, and_then, Bytes, codes, before, past, or_value,
}
use agent_httpd.Text.{set_str}
use agent_httpd.Request.{HttpRequest, max_path_size}
use agent_httpd.Response.{decimal}
use agent_httpd.Fcgi.{begin_request, params_type, stdin_type, put_be16, send_frame}

-- `fcgi_put_len`.
unfoldable pub fcgi_put_len : ℕ → Bytes
fcgi_put_len len =
    if ltb len 128
    then len ∷ []
    else (128 + len / 2 ^ 24 % 128) ∷ len / 2 ^ 16 % 256 ∷ len / 2 ^ 8 % 256 ∷ len % 256 ∷ []

-- What is sent as the body: `request->body`, of at least Content-Length bytes, or a file that was spooled.
pub data Upload : Type 0 where
  nothing : Upload
  in_memory spooled : Bytes → Upload

-- The array `pv`; `none` is NULL.
abbrev pub cgi_params : HttpRequest → Option Bytes → List (Bytes × Option Bytes)
cgi_params r remote_addr =
    (codes "REQUEST_METHOD", some r.method)
    ∷ (codes "REQUEST_URI", some (set_str max_path_size (before b'?' r.path)))
    ∷ (codes "QUERY_STRING", some (set_str max_path_size (or_value (past b'?' r.path) [])))
    ∷ (codes "CONTENT_TYPE", some r.content_type)
    ∷ (codes "CONTENT_LENGTH", some (decimal r.content_length))
    ∷ (codes "HTTP_HOST", some r.host)
    ∷ (codes "HTTP_USER_AGENT", some r.user_agent)
    ∷ (codes "HTTP_ACCEPT_ENCODING", some r.accept_encoding)
    ∷ (codes "HTTP_IF_NONE_MATCH", some r.if_none_match)
    ∷ (codes "REMOTE_ADDR", remote_addr)
    ∷ []

-- The loop over `pv`, into a buffer of 4096 bytes of which `out` is filled.
unfoldable pub put_params : Bytes → List (Bytes × Option Bytes) → Option Bytes
put_params out [] = some out
put_params out ((n, none) ∷ ps) = put_params out ps
put_params out ((n, some []) ∷ ps) = put_params out ps
put_params out ((n, some (c ∷ v)) ∷ ps) =
    let next =
      put_params
        (out ++ (fcgi_put_len (length n) ++ (fcgi_put_len (length (c ∷ v)) ++ (n ++ (c ∷ v)))))
        ps in
    if ltb 4096 (length out + 4 + length n + 4 + length (c ∷ v) + 1) then none else next

-- The loop over a spooled file, in pieces of 65536 bytes.
unfoldable pub spool_loop : ℕ → ℕ → Bytes → Option Bytes
spool_loop zero left file = some []
spool_loop (suc fuel) left file =
    let piece = take (min left 65536) file in
    let next =
      and_then (spool_loop fuel (left - length piece) (drop (min left 65536) file))
        (λ rest. some (send_frame stdin_type 1 piece ++ rest)) in
    if left == 0 then some [] else if length piece == 0 then none else next

-- The records of the body.
unfoldable pub put_stdin : ℕ → Upload → Option Bytes
put_stdin content_length nothing = some []
put_stdin content_length (in_memory body) =
    if ltb 0 content_length
    then some (send_frame stdin_type 1 (take content_length body))
    else some []
put_stdin content_length (spooled file) = spool_loop (suc content_length) content_length file

-- `forward_to_fcgi`, up to the answer; `none` is its failure.
unfoldable pub forward_to_fcgi : HttpRequest → Option Bytes → Upload → Option Bytes
forward_to_fcgi r remote_addr upload =
    and_then (put_params [] (cgi_params r remote_addr)) (λ params.
      and_then (put_stdin r.content_length upload) (λ body. some (
        send_frame begin_request 1 (put_be16 1 ++ (0 ∷ 0 ∷ 0 ∷ 0 ∷ 0 ∷ 0 ∷ []))
        ++ (send_frame params_type 1 params
            ++ (send_frame params_type 1 [] ++ (body ++ send_frame stdin_type 1 []))))))
