-- ===== src/Fcgi.antt =====
-- FastCGI: the records of src/cgi/fastcgi.c, what the server reads from a connection and what the client
-- sends. A connection is the bytes that arrive before it is closed; an allocation succeeds.
pub mod Client
pub mod Frames
pub mod Params
pub mod Built
pub mod Relay
pub mod Stream
pub mod Exchange
mod Tests
use agent_httpd.Base.{
  ℕ, zero, suc, ◌+◌, ◌-◌, ◌*◌, ◌/◌, ◌%◌, ◌^◌, min, Bool, true, false, not, ◌&&◌, ◌||◌, Option, none,
  some, List, [], ◌∷◌, ◌++◌, length, take, drop, replicate, ltb, leb, ◌==◌, if◌then◌else◌, and_then,
  Bytes, codes, before, past, same,
}
use agent_httpd.Text.{set_str}
use agent_httpd.Request.{max_request_size}
use agent_httpd.Range.{strtoll}
use agent_httpd.Response.{decimal}

abbrev pub begin_request : ℕ
begin_request = 1

abbrev pub params_type : ℕ
params_type = 4

abbrev pub stdin_type : ℕ
stdin_type = 5

abbrev pub stdout_type : ℕ
stdout_type = 6

-- `put_be16`, of an unsigned short.
abbrev pub put_be16 : ℕ → Bytes
put_be16 v = v / 256 ∷ v % 256 ∷ []

abbrev pub pad_len : ℕ → ℕ
pad_len len = (8 - len % 8) % 8

-- `send_frame`; the length is cast to an unsigned short.
unfoldable pub send_frame : ℕ → ℕ → Bytes → Bytes
send_frame type id content =
    (1
      ∷ type
      ∷ id / 256
      ∷ id % 256
      ∷ length content % 65536 / 256
      ∷ length content % 65536 % 256
      ∷ pad_len (length content)
      ∷ 0
      ∷ [])
    ++ (content ++ replicate (pad_len (length content)) 0)

-- `recv_n`, of `n` bytes into a buffer of `size`: more than fit, fewer than asked, or all and the rest.
pub data Received : Type 0 where
  overrun short : Received
  got : Bytes → Bytes → Received

abbrev pub recv_n : ℕ → ℕ → Bytes → Received
recv_n size n s =
    if ltb size n && ltb size (length s)
    then overrun
    else if ltb (length s) n
    then short
    else got (take n s) (drop n s)

-- What is behind, of a read that is only to be skipped; it goes on as `f` says.
abbrev pub skipping : Received → (Bytes → Received) → Received
skipping overrun f = overrun
skipping short f = short
skipping (got content rest) f = f rest

-- The loop of `drain_frame_body` over the content, in pieces of eight bytes.
unfoldable pub drain_loop : ℕ → ℕ → Bytes → Received
drain_loop zero len s = got [] s
drain_loop (suc fuel) len s =
    let chunk = min len 8 in
    let next = skipping (recv_n 8 chunk s) (drain_loop fuel (len - chunk)) in
    if len == 0 then got [] s else next

abbrev pub drain_padding : ℕ → Bytes → Received
drain_padding pad s = if pad == 0 then got [] s else recv_n 8 pad s

-- `drain_frame_body`.
unfoldable pub drain_frame_body : ℕ → ℕ → Bytes → Received
drain_frame_body len pad s = skipping (drain_loop len len s) (drain_padding pad)

-- A length of one byte or of four, and what follows.
abbrev pub read_len : Bytes → Option (ℕ × Bytes)
read_len [] = none
read_len (c ∷ []) = if ltb c 128 then some (c, []) else none
read_len (c ∷ a ∷ []) = if ltb c 128 then some (c, a ∷ []) else none
read_len (c ∷ a ∷ b ∷ []) = if ltb c 128 then some (c, a ∷ b ∷ []) else none
read_len (c ∷ a ∷ b ∷ d ∷ s) =
    if ltb c 128
    then some (c, a ∷ b ∷ d ∷ s)
    else some (c % 128 * 2 ^ 24 + a * 2 ^ 16 + b * 2 ^ 8 + d, s)

abbrev pub Param : Type 0
Param = Bytes × Bytes

-- A pair of the two lengths, and the bytes behind them.
abbrev pub cut_pair : ℕ → ℕ → Bytes → Option (Param × Bytes)
cut_pair n m s =
    if ltb (length s) (n + m)
    then none
    else some ((before 0 (take n s), before 0 (take m (drop n s))), drop m (drop n s))

abbrev pub read_pair : Bytes → Option (Param × Bytes)
read_pair s = and_then (read_len s) (λ a. and_then (read_len a.1) (λ b. cut_pair a.0 b.0 b.1))

-- `parse_params`; the names and values are read as C strings.
unfoldable pub params_loop : ℕ → Bytes → List Param
params_loop zero s = []
params_loop (suc fuel) s = elim (read_pair s) [
  | none ↦ []
  | some (p, rest) ↦ p ∷ params_loop fuel rest
]

unfoldable pub parse_params : Bytes → List Param
parse_params content = params_loop (suc (length content)) content

-- `param_get`; `none` is NULL.
unfoldable pub param_get : Bytes → List Param → Option Bytes
param_get name [] = none
param_get name ((n, v) ∷ ps) = let rest = param_get name ps in if same n name then some v else rest

-- The fields of a record's header that are looked at, with their bytes.
pub record FcgHeader : Type 0 where
  pub version : ℕ
  pub type : ℕ
  pub request_id : ℕ
  pub content_length : ℕ
  pub padding_length : ℕ

abbrev pub be16 : ℕ → ℕ → ℕ
be16 a b = a * 256 + b

-- A header, and what follows.
unfoldable pub read_header : Bytes → Option (FcgHeader × Bytes)
read_header (v ∷ t ∷ i ∷ j ∷ l ∷ m ∷ p ∷ r ∷ s) = some (
  record {
    version = v;
    type = t;
    request_id = be16 i j;
    content_length = be16 l m;
    padding_length = p;
  },
  s,
)
read_header _ = none

-- What the server has read: the request is built, or dropped, or memory behind a buffer is written.
pub data Served : Type 0 where
  built : List Param → Bytes → Served
  dropped broken : Served

-- Behind the padding of a record: an error ends the connection, or is not looked at.
abbrev pub go_on : Received → Served → (Bytes → Served) → Served
go_on overrun failed next = broken
go_on short failed next = failed
go_on (got content rest) failed next = next rest

abbrev pub with_data : Received → Served → (Bytes → Bytes → Served) → Served
with_data overrun failed next = broken
with_data short failed next = failed
with_data (got content rest) failed next = next content rest

-- The loop over the records behind the first, with the pairs and the body read so far.
unfoldable pub serve_loop : ℕ → Bytes → List Param → Bytes → Served
serve_loop zero s params body = dropped
serve_loop (suc fuel) s params body = elim (read_header s) [
  | none ↦ built params body
  | some (h, rest) ↦
      let len = h.content_length in
      let pad = h.padding_length in
      let no_params =
        go_on (drain_frame_body 0 pad rest) dropped (λ t. serve_loop fuel t params body) in
      let more_params = with_data (recv_n len len rest) dropped (λ content t.
        go_on (drain_frame_body 0 pad t) dropped
          (λ u. serve_loop fuel u (parse_params content) body)) in
      let no_body =
        go_on (drain_frame_body 0 pad rest) (built params body) (λ t. built params body) in
      let too_large =
        go_on (drain_frame_body len pad rest) (built params []) (λ t. built params []) in
      let more_body = with_data (recv_n len len rest) (built params body) (λ content t.
        go_on (drain_frame_body 0 pad t) (built params (body ++ content))
          (λ u. serve_loop fuel u params (body ++ content))) in
      let other =
        go_on (drain_frame_body len pad rest) (built params body) (λ t. built params body) in
      if h.type == params_type
      then (if len == 0 then no_params else more_params)
      else if h.type == stdin_type
      then (if len == 0
          then no_body
          else if ltb max_request_size (length body + len)
          then too_large
          else more_body)
      else other
]

abbrev pub begun : FcgHeader → Bytes → Served
begun h rest =
    if h.version == 1 && h.type == begin_request
    then go_on (drain_frame_body h.content_length h.padding_length rest) dropped
        (λ t. serve_loop (suc (length t)) t [] [])
    else dropped

-- `fastcgi_handle_connection`, up to the request.
unfoldable pub serve : Bytes → Served
serve s = elim (read_header s) [ none ↦ dropped | some (h, rest) ↦ begun h rest ]
