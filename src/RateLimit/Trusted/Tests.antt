-- ===== src/RateLimit/Trusted/Tests.antt =====
-- Trusted proxies: runs, and the theorems at concrete inputs.
use agent_httpd.Base.{
  ◌≡◌, refl, some, none, [], ◌∷◌, List, Option, true, false, arith, Bytes, codes,
}
use agent_httpd.RateLimit.Trusted.{
  inet, address, is_trusted, set_trusted_proxies, trusted_loop, add_entry, next_entry,
  skip_separators, parse_cidr, parse_net, split_prefix, bare, bracketed, contains, split_at,
  drop_last_blanks, skip_blanks, until_comma, parse_prefix, prefix_loop, and_bytes, mask_bytes,
}
use agent_httpd.RateLimit.Trusted.Masks.{
  Entry, networks, in_entries, IsAddress, is_trusted-in_entries,
}

abbrev ten_net : Bytes
ten_net = 10 ∷ 1 ∷ 2 ∷ 3 ∷ []

-- Stand-ins that know one address each.
abbrev aton : Bytes → Option Bytes
aton s = some ten_net

abbrev pton : Bytes → Option Bytes
pton s = none

abbrev entries : List Entry
entries = record { family = inet; literal = ten_net; prefix = 12 } ∷ []

-- Entries with a bad prefix, with junk, or that are no address are dropped.
set_trusted_proxies-networks :
    set_trusted_proxies pton aton (some (codes "10.1.2.3/1a, 10.1.2.3/12 ,[::1],::1,10.1.2.3/33"))
    ≡ networks entries
unfolding set_trusted_proxies trusted_loop add_entry next_entry skip_separators parse_cidr parse_net
    split_prefix bare bracketed contains split_at drop_last_blanks skip_blanks until_comma
    parse_prefix prefix_loop and_bytes mask_bytes
set_trusted_proxies-networks = refl

ten_net-IsAddress : IsAddress inet ten_net
ten_net-IsAddress = (refl, (omega arith, (omega arith, (omega arith, (omega arith, tt)))))

-- 10.15.0.9 lies in 10.1.2.3/12.
abbrev near : Bytes
near = 10 ∷ 15 ∷ 0 ∷ 9 ∷ []

is_trusted-in_entries_example :
    is_trusted (networks entries) (address inet near) ≡ in_entries entries inet near
is_trusted-in_entries_example =
    is_trusted-in_entries entries inet near (ten_net-IsAddress, tt)
      (refl, (omega arith, (omega arith, (omega arith, (omega arith, tt)))))

near_in : in_entries entries inet near ≡ true
near_in = refl

far_out : in_entries entries inet (10 ∷ 16 ∷ 0 ∷ 9 ∷ []) ≡ false
far_out = refl
