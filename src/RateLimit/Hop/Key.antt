-- ===== src/RateLimit/Hop/Key.antt =====
-- Who chooses the limiter's key: `rate_limit_key_from_peer` of src/security/ratelimit.c.
use agent_httpd.Base.{
  true, false, Option, List, [], ◌∷◌, ◌==◌, Bytes, ◌≡◌, ◌≢◌, ◌⊎◌, inl, inr, refl, arith, Bool-cases,
}
use agent_httpd.RateLimit.Trusted.{Peer, TrustedNet, is_trusted}
use agent_httpd.RateLimit.Hop.{sockaddr_key, first_hop, hop_key, parse_xff, key_from_peer}

module _ (inet_pton inet_aton : Bytes → Option Bytes) where
  no_hop :
      (nets : List TrustedNet) (peer : Peer) (xff : Bytes)
      → (parse_xff inet_pton inet_aton xff == 0) ≡ true
      → key_from_peer inet_pton inet_aton nets peer xff ≡ sockaddr_key peer
  unfolding key_from_peer
  no_hop nets peer xff z = ground (arith, z)

  no_header : (parse_xff inet_pton inet_aton [] == 0) ≡ true
  unfolding parse_xff first_hop hop_key
  no_header = refl

  one_hop :
      (nets : List TrustedNet) (peer : Peer) (xff : Bytes)
      → is_trusted nets peer ≡ true
      → sockaddr_key peer ≢ 0
      → (parse_xff inet_pton inet_aton xff == 0) ≡ false
      → key_from_peer inet_pton inet_aton nets peer xff ≡ parse_xff inet_pton inet_aton xff
  unfolding key_from_peer
  one_hop nets peer [] e k n = absurd (cc (n, no_header))
  one_hop nets peer (c ∷ cs) e k n = ground (arith, e, k, n)

  -- Behind a trusted proxy the first hop is the key. For any list of trusted networks and any peer in
  -- them that has a key: if the header gives a key, it is that, else it is the peer's own.
  pub key_from_peer_trusted :
      (nets : List TrustedNet) (peer : Peer) (xff : Bytes)
      → is_trusted nets peer ≡ true
      → sockaddr_key peer ≢ 0
      → ((parse_xff inet_pton inet_aton xff ≢ 0)
          × (key_from_peer inet_pton inet_aton nets peer xff ≡ parse_xff inet_pton inet_aton xff))
        ⊎ ((parse_xff inet_pton inet_aton xff ≡ 0)
            × (key_from_peer inet_pton inet_aton nets peer xff ≡ sockaddr_key peer))
  key_from_peer_trusted nets peer xff e k =
      elim (Bool-cases (parse_xff inet_pton inet_aton xff == 0)) [
        | inl z ↦ inr (ground arith, no_hop nets peer xff z)
        | inr n ↦ inl (ground arith, one_hop nets peer xff e k n)
      ]
