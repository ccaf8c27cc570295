-- ===== src/Host/Entries.antt =====
-- The allowlist of `host_is_allowed` in src/core/util.c, as names with or without a port.
use agent_httpd.Base.{
  ◌≤◌, Bool, true, false, ◌&&◌, ◌||◌, Option, none, some, List, [], ◌∷◌, ◌++◌, length, ◌==◌,
  if◌then◌else◌, Bytes, All, Lacks, same, drop_last_while, ◌≡◌,
}
use agent_httpd.Host.{lower_all, entry_allows}
use agent_httpd.Host.Allowed.{trim}

-- A name, and a port where one is given.
abbrev pub Endpoint : Type 0
Endpoint = Bytes × Option Bytes

abbrev pub endpoint_text : Endpoint → Bytes
endpoint_text (name, none) = name
endpoint_text (name, some port) = name ++ (b':' ∷ port)

abbrev pub starts_plain : Bytes → Bool
starts_plain [] = false
starts_plain (c ∷ s) = if c == b'[' then false else true

abbrev pub NoColonIn : Option Bytes → Type 0
NoColonIn none = Unit
NoColonIn (some port) = All (Lacks b':') port

-- A name that is not empty, begins with no bracket, has no colon and does not end with a dot; a port
-- without a colon; at most 255 bytes in all.
pub record IsEndpoint (e : Endpoint) : Type 0 where
  pub starts : starts_plain e.0 ≡ true
  pub short : length (endpoint_text e) ≤ 255
  pub name : All (Lacks b':') e.0
  pub ends : drop_last_while (λ c. c == b'.') (lower_all e.0) ≡ lower_all e.0
  pub port : NoColonIn e.1

-- The fields that are not empty once they are trimmed.
abbrev pub unless_empty : Bytes → List Bytes → List Bytes
unless_empty [] ts = ts
unless_empty (c ∷ t) ts = (c ∷ t) ∷ ts

abbrev pub trimmed : List Bytes → List Bytes
trimmed [] = []
trimmed (f ∷ fs) = unless_empty (trim f) (trimmed fs)

abbrev pub endpoint_texts : List Endpoint → List Bytes
endpoint_texts [] = []
endpoint_texts (e ∷ es) = endpoint_text e ∷ endpoint_texts es

-- Whether an entry lets a host in: one name but for case; an entry without a port takes any port, one with
-- a port takes a host with that port.
abbrev pub admits : Endpoint → Endpoint → Bool
admits (name, none) (host, port) = same (lower_all host) (lower_all name)
admits (name, some p) (host, none) = false
admits (name, some p) (host, some q) = same (lower_all host) (lower_all name) && same q p

abbrev pub any_admits : List Endpoint → Endpoint → Bool
any_admits [] h = false
any_admits (e ∷ es) h = admits e h || any_admits es h

abbrev any_text : Bytes → Option Bytes → List Bytes → Bool
any_text hname hport [] = false
any_text hname hport (t ∷ ts) = if entry_allows hname hport t then true else any_text hname hport ts
