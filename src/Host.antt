-- ===== src/Host.antt =====
-- The Host header: `split_host`, `host_is_allowed` and `request_is_same_origin` of src/core/util.c. A port
-- that is NULL is `none`.
pub mod Allowed
pub mod Entries
pub mod Origin
mod Tests
use agent_httpd.Base.{
  ℕ, zero, suc, ◌+◌, ◌-◌, Bool, true, false, not, ◌&&◌, ◌||◌, Option, none, some, List, [], ◌∷◌,
  ◌++◌, length, take, ltb, leb, ◌==◌, if◌then◌else◌, Bytes, codes, same, after, past, before,
  is_some, or_else, or_value, to_lower, drop_while, drop_last_while,
}

abbrev pub lower_all : Bytes → Bytes
lower_all [] = []
lower_all (c ∷ s) = to_lower c ∷ lower_all s

-- The copy loop of `split_host`: as much as fits, in lower case, without dots at the end.
abbrev pub host_name : Bytes → ℕ → Bytes
host_name h outsz = drop_last_while (λ c. c == b'.') (lower_all (take (outsz - 1) h))

-- `br[1] == ':'`.
abbrev pub port_of : Bytes → Option Bytes
port_of [] = none
port_of (c ∷ s) = if c == b':' then some s else none

-- Without brackets: one colon ends the host, a second one makes it all a host.
unfoldable pub split_bare : Bytes → ℕ → Bytes × Option Bytes
split_bare s outsz = elim (past b':' s) [
  | none ↦ (host_name s outsz, none)
  | some port ↦
      if is_some (past b':' port)
      then (host_name s outsz, none)
      else (host_name (before b':' s) outsz, some port)
]

-- `split_host`; `none` is -1.
unfoldable pub split_host : Bytes → ℕ → Option (Bytes × Option Bytes)
split_host [] outsz = some (split_bare [] outsz)
split_host (c ∷ s) outsz =
    if c == b'['
    then elim (past b']' s) [
      | none ↦ none
      | some rest ↦ some (host_name (before b']' s) outsz, port_of rest)
    ]
    else some (split_bare (c ∷ s) outsz)

-- Two optional ports: an entry without one takes any.
abbrev pub port_allows : Option Bytes → Option Bytes → Bool
port_allows none hport = true
port_allows (some eport) none = false
port_allows (some eport) (some hport) = same hport eport

-- One entry against the request's name and port.
unfoldable pub entry_allows : Bytes → Option Bytes → Bytes → Bool
entry_allows hname hport entry = elim (split_host (take 255 entry) 256) [
  | none ↦ false
  | some (ename, eport) ↦ same hname ename && port_allows eport hport
]

abbrev pub is_separator : ℕ → Bool
is_separator c = c == b' ' || c == b'\t' || c == b','

abbrev pub is_pad : ℕ → Bool
is_pad c = c == b' ' || c == b'\t'

-- What follows the entry, its comma included.
unfoldable pub from_comma : Bytes → Bytes
from_comma [] = []
from_comma (c ∷ s) = if c == b',' then c ∷ s else from_comma s

-- The loop over the allowlist; every round takes at least a byte.
unfoldable pub allow_loop : ℕ → Bytes → Option Bytes → Bytes → Bool
allow_loop zero hname hport p = false
allow_loop (suc fuel) hname hport p = elim (drop_while is_separator p) [
  | [] ↦ false
  | c ∷ s ↦
      let next = allow_loop fuel hname hport (from_comma (c ∷ s)) in
      if entry_allows hname hport (drop_last_while is_pad (before b',' (c ∷ s))) then true else next
]

abbrev pub allowed_by : Option (Bytes × Option Bytes) → Bytes → Bool
allowed_by none allowed = false
allowed_by (some (hname, hport)) allowed = allow_loop (suc (length allowed)) hname hport allowed

-- `host_is_allowed`, with the list that `g_allowed_hosts` holds; no header is an empty one.
unfoldable pub host_is_allowed : Bytes → Bytes → Bool
host_is_allowed [] host = true
host_is_allowed (a ∷ allowed) [] = false
host_is_allowed (a ∷ allowed) (h ∷ host) = allowed_by (split_host (h ∷ host) 256) (a ∷ allowed)

-- `strstr(s, w)`, and what follows.
unfoldable pub behind_text : Bytes → Bytes → Option Bytes
behind_text w [] = after w []
behind_text w (c ∷ s) = or_else (after w (c ∷ s)) (behind_text w s)

abbrev pub origin_host : Bytes → Bytes
origin_host origin = or_value (behind_text (codes "://") origin) origin

-- The ports of Origin and Host.
abbrev pub ports_agree : Option Bytes → Option Bytes → Bool
ports_agree (some oport) none = false
ports_agree (some oport) (some hport) = same oport hport
ports_agree none none = true
ports_agree none (some hport) = same hport (codes "80") || same hport (codes "443")

abbrev pub origins_agree : Option (Bytes × Option Bytes) → Option (Bytes × Option Bytes) → Bool
origins_agree none h = false
origins_agree (some o) none = false
origins_agree (some (ohost, oport)) (some (hhost, hport)) =
    if same ohost hhost then ports_agree oport hport else false

-- `request_is_same_origin`, of the three header fields it reads.
unfoldable pub request_is_same_origin : Bytes → Bytes → Bytes → Bool
request_is_same_origin (c ∷ site) origin host =
    same (c ∷ site) (codes "same-origin") || same (c ∷ site) (codes "none")
request_is_same_origin [] [] host = true
request_is_same_origin [] (c ∷ origin) host =
    origins_agree (split_host (origin_host (c ∷ origin)) 256) (split_host host 256)
