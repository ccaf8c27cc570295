-- ===== src/Fcgi/Relay.antt =====
-- The answer of src/cgi/fastcgi.c: the records that `fastcgi_handle_connection` writes, and what
-- `forward_to_fcgi` passes on to the client. The sockets take all that is sent.
use agent_httpd.Base.{
  ℕ, zero, suc, ◌+◌, ◌-◌, min, Bool, true, false, not, Option, none, some, [], ◌∷◌, ◌++◌, length,
  take, drop, ltb, ◌==◌, if◌then◌else◌, Bytes, codes, after, or_else, or_value,
}
use agent_httpd.Range.{strtoll}
use agent_httpd.Fcgi.{
  stdout_type, send_frame, Received, overrun, short, got, recv_n, read_header, skipping,
}

abbrev pub end_request : ℕ
end_request = 3

-- The loop over the serialized response, in pieces of 65535 bytes.
unfoldable pub stdout_loop : ℕ → ℕ → Bytes → Bytes
stdout_loop zero id s = []
stdout_loop (suc fuel) id s =
    let next =
      send_frame stdout_type id (take (min (length s) 65535) s)
      ++ stdout_loop fuel id (drop (min (length s) 65535) s) in
    if ltb 0 (length s) then next else []

-- What is written of a response that is whole in its buffer; a piece takes a byte at least.
unfoldable pub answer : ℕ → Bytes → Bytes
answer id response =
    stdout_loop (suc (length response)) id response
    ++ send_frame end_request id (0 ∷ 0 ∷ 0 ∷ 0 ∷ 0 ∷ 0 ∷ 0 ∷ 0 ∷ [])

-- The first place at which `w` stands: what is before it, as a number, and what follows.
unfoldable pub find_text : Bytes → Bytes → Option (ℕ × Bytes)
find_text w [] = none
find_text w (c ∷ s) = elim (after w (c ∷ s)) [
  | some t ↦ some (0, t)
  | none ↦ elim (find_text w s) [ some (i, t) ↦ some (suc i, t) | none ↦ none ]
]

-- `atoi`, as a sign and a value; the digits end before the piece does.
abbrev pub atoi_of : Option (Bool × ℕ × Bytes) → Bool × ℕ
atoi_of none = (false, 0)
atoi_of (some (neg, n, rest)) = (neg, n)

abbrev pub atoi : Bytes → Bool × ℕ
atoi s = atoi_of (strtoll s)

-- The locals of the loop: `status` where `got_status` is set, the bytes that were passed on, `header_len`
-- where it is not -1, `head_scan_done` and `streamed_any`.
pub record Relay : Type 0 where
  pub status : Option (Bool × ℕ)
  pub out : Bytes
  pub header_len : Option ℕ
  pub head_scan_done : Bool
  pub streamed_any : Bool

-- The label where it ends: `done_streamed`, `fail`, or a write behind a buffer.
pub data Ended : Type 0 where
  done_streamed : Relay → Ended
  failed overran : Ended

abbrev pub status_in : Option (ℕ × Bytes) → Option (Bool × ℕ)
status_in none = none
status_in (some (i, t)) = some (atoi t)

abbrev pub head_in : Option (ℕ × Bytes) → Option ℕ
head_in none = none
head_in (some (i, t)) = some (i + 4)

-- One record of the answer.
unfoldable pub pass_on : Bytes → Relay → Relay
pass_on frame l = record {
  status = or_else l.status (status_in (find_text (codes "HTTP/1.1 ") frame));
  out = l.out ++ frame;
  header_len =
      if l.head_scan_done then l.header_len else head_in (find_text (codes "\r\n\r\n") frame);
  head_scan_done = true;
  streamed_any = true;
}

abbrev pub stopped : Relay → Ended
stopped l = if l.streamed_any then done_streamed l else failed

-- The loop over what a record of another kind holds, in pieces of 64 bytes.
unfoldable pub drop_loop : ℕ → ℕ → Bytes → Received
drop_loop zero len s = got [] s
drop_loop (suc fuel) len s =
    let next = skipping (recv_n 64 (min len 64) s) (drop_loop fuel (len - min len 64)) in
    if len == 0 then got [] s else next

-- What follows a read that failed, or did not.
abbrev pub behind_read : Received → Ended → (Bytes → Bytes → Ended) → Ended
behind_read overrun f next = overran
behind_read short f next = f
behind_read (got content rest) f next = next content rest

abbrev pub skip_padding : ℕ → Bytes → Received
skip_padding pad s = if pad == 0 then got [] s else recv_n 8 pad s

-- The loop of `forward_to_fcgi` over the records of the answer.
unfoldable pub relay_loop : ℕ → Bytes → Relay → Ended
relay_loop zero s l = stopped l
relay_loop (suc fuel) s l = elim (read_header s) [
  | none ↦ stopped l
  | some (h, rest) ↦
      let len = h.content_length in
      let next : Bytes → Relay → Ended = λ t m.
        behind_read (skip_padding h.padding_length t) failed (λ c u.
          let more = relay_loop fuel u m in
          if h.type == end_request then done_streamed m else more) in
      let output =
        behind_read (recv_n 65536 len rest) (stopped l) (λ frame t. next t (pass_on frame l)) in
      let other = behind_read (drop_loop len len rest) failed (λ c t. next t l) in
      if not (h.version == 1)
      then stopped l
      else if h.type == stdout_type
      then (if ltb 65536 len then stopped l else output)
      else other
]

abbrev pub start : Relay
start = record {
  status = none;
  out = [];
  header_len = none;
  head_scan_done = false;
  streamed_any = false;
}

-- The answer that arrives; every record takes its header.
unfoldable pub relay : Bytes → Ended
relay s = relay_loop (suc (length s)) s start

abbrev pub behind_head : Option ℕ → ℕ → ℕ
behind_head none n = n
behind_head (some head) n = if ltb head n then n - head else n

-- `*body_bytes` where the answer was passed on.
abbrev pub body_bytes : Relay → ℕ
body_bytes l = behind_head l.header_len (length l.out)

-- What `forward_to_fcgi` answers then.
abbrev pub status_of : Relay → Bool × ℕ
status_of l = or_value l.status (false, 200)
