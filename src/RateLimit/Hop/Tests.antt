-- ===== src/RateLimit/Hop/Tests.antt =====
-- The limiter's key: runs, and the theorems at concrete inputs.
use agent_httpd.Base.{◌≡◌, ◌≢◌, refl, some, none, [], ◌∷◌, List, Option, true, arith, Bytes, codes}
use agent_httpd.RateLimit.Trusted.{
  inet, Peer, TrustedNet, address, is_trusted, any_net, masked_equal, network, and_bytes,
  mask_bytes,
}
use agent_httpd.RateLimit.Hop.{
  sockaddr_key, parse_xff, key_from_addr, little_endian, first_hop, hop_key, count, until,
}

-- Stand-ins that know one address each.
abbrev aton : Bytes → Option Bytes
aton s = some (1 ∷ 2 ∷ 3 ∷ 4 ∷ [])

abbrev pton : Bytes → Option Bytes
pton s = none

abbrev proxy : Peer
proxy = address inet (10 ∷ 1 ∷ 2 ∷ 3 ∷ [])

abbrev nets : List TrustedNet
nets = network inet 4 (10 ∷ 1 ∷ 0 ∷ 0 ∷ []) 16 ∷ []

abbrev header : Bytes
header = codes " 1.2.3.4:5678, 10.1.2.3"

header_key : parse_xff pton aton header ≡ 0x04030201
unfolding parse_xff first_hop hop_key count until key_from_addr little_endian
header_key = refl

proxy_trusted : is_trusted nets proxy ≡ true
unfolding is_trusted any_net masked_equal and_bytes mask_bytes
proxy_trusted = refl

proxy_key : sockaddr_key proxy ≢ 0
unfolding sockaddr_key key_from_addr little_endian
proxy_key e = absurd (omega (arith, e))

-- 0.0.0.0 has the key 0, which the callers read as "no key".
zero_key : sockaddr_key (address inet (0 ∷ 0 ∷ 0 ∷ 0 ∷ [])) ≡ 0
unfolding sockaddr_key key_from_addr little_endian
zero_key = refl
