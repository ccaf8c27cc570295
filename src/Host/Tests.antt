-- ===== src/Host/Tests.antt =====
-- The Host header: runs, and the theorems at concrete inputs.
use agent_httpd.Base.{
  ◌≡◌, refl, none, List, some, [], ◌∷◌, true, codes, same, past, before, drop_last_while, after,
}
use agent_httpd.Host.{split_host, split_bare, request_is_same_origin, behind_text}
use agent_httpd.Host.Entries.{Endpoint}

-- Every dot at the end goes, not only one.
split_host-dots :
    split_host (codes "Example.COM..:8080") 256 ≡ some (codes "example.com", some (codes "8080"))
unfolding split_host split_bare past before drop_last_while
split_host-dots = refl

split_host-six : split_host (codes "[::1]:80") 256 ≡ some (codes "::1", some (codes "80"))
unfolding split_host split_bare past before drop_last_while
split_host-six = refl

abbrev listed : List Endpoint
listed = (codes "a.org", none) ∷ (codes "B.net", some (codes "80")) ∷ []

abbrev caller : Endpoint
caller = (codes "b.NET", some (codes "80"))

explicit_port : request_is_same_origin [] (b'h' ∷ codes "ttp://a.org") (codes "A.org:443") ≡ true
unfolding request_is_same_origin split_host split_bare past before drop_last_while behind_text same
    after
explicit_port = refl
