-- ===== src/RateLimit/Hop.antt =====
-- The limiter's key, in src/security/ratelimit.c: of a peer, and of the first hop of X-Forwarded-For.
-- `inet_pton` and `inet_aton` are parameters, from a text to the bytes in network order. The key of an
-- IPv4 address is read as on a little-endian machine.
pub mod Key
mod Tests
use Prim.Native.Nat.{bit_xor}
use agent_httpd.Base.{
  ℕ, zero, suc, ◌+◌, ◌*◌, ◌%◌, ◌^◌, Bool, not, ◌&&◌, Option, none, some, List, [], ◌∷◌, length, ltb,
  ◌==◌, if◌then◌else◌, Bytes,
}
use agent_httpd.RateLimit.Trusted.{
  Family, inet, inet6, Peer, absent, other, address, TrustedNet, is_trusted, is_blank, split_at,
}

-- FNV-1a, one byte at a time.
unfoldable pub fnv1a : ℕ → Bytes → ℕ
fnv1a h [] = h
fnv1a h (b ∷ bs) = fnv1a (bit_xor h b * 0x01000193 % 2 ^ 32) bs

unfoldable pub little_endian : Bytes → ℕ
little_endian [] = 0
little_endian (b ∷ bs) = b + 256 * little_endian bs

-- `key_from_addr`.
unfoldable pub key_from_addr : Family → Bytes → ℕ
key_from_addr inet bytes = little_endian bytes
key_from_addr inet6 bytes = let h = fnv1a 0x811c9dc5 bytes in if h == 0 then 1 else h

-- `sockaddr_key`.
unfoldable pub sockaddr_key : Peer → ℕ
sockaddr_key absent = 0
sockaddr_key other = 0
sockaddr_key (address family bytes) = key_from_addr family bytes

-- The hop's text: no blanks, up to a comma, as far as the buffer goes.
unfoldable pub first_hop : ℕ → Bytes → Bytes
first_hop zero s = []
first_hop (suc room) [] = []
first_hop (suc room) (c ∷ cs) =
    if c == b',' then [] else if is_blank c then first_hop (suc room) cs else c ∷ first_hop room cs

unfoldable pub count : ℕ → Bytes → ℕ
count c [] = 0
count c (x ∷ xs) = if x == c then suc (count c xs) else count c xs

unfoldable pub until : ℕ → Bytes → Bytes
until c [] = []
until c (x ∷ xs) = if x == c then [] else x ∷ until c xs

abbrev pub key_or_zero : Family → Option Bytes → ℕ
key_or_zero family none = 0
key_or_zero family (some bytes) = key_from_addr family bytes

module _ (inet_pton inet_aton : Bytes → Option Bytes) where
  unfoldable pub hop_key : Bytes → ℕ
  hop_key [] = 0
  hop_key (c ∷ cs) =
      if c == b'['
      then elim (split_at b']' cs) [
        | none ↦ 0
        | some (addr, _) ↦ key_or_zero inet6 (inet_pton addr)
      ]
      else if ltb 1 (count b':' (c ∷ cs))
      then key_or_zero inet6 (inet_pton (c ∷ cs))
      else key_or_zero inet (inet_aton (until b':' (c ∷ cs)))

  -- `rate_limit_parse_xff`; NULL and an empty header give the same.
  unfoldable pub parse_xff : Bytes → ℕ
  parse_xff xff = hop_key (first_hop 127 xff)

  -- `rate_limit_key_from_peer`; no request is an empty header.
  unfoldable pub key_from_peer : List TrustedNet → Peer → Bytes → ℕ
  key_from_peer nets peer xff =
      let key = sockaddr_key peer in
      let hop = parse_xff xff in
      if not (key == 0) && ltb 0 (length xff) && is_trusted nets peer
      then (if hop == 0 then key else hop)
      else key
