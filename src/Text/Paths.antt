-- ===== src/Text/Paths.antt =====
-- `path_has_dot_component` of src/core/util.c.
use agent_httpd.Base.{Bool, true, false, ◌&&◌, ◌||◌, [], ◌∷◌, ◌==◌, Bytes, ◌≡◌, refl, arith}
use agent_httpd.Text.{dot_loop, path_has_dot_component}

abbrev pub starts_dot : Bytes → Bool
starts_dot [] = false
starts_dot (c ∷ s) = c == b'.'

-- Does a dot follow a slash somewhere?
abbrev pub slash_dot : Bytes → Bool
slash_dot [] = false
slash_dot (c ∷ s) = c == b'/' && starts_dot s || slash_dot s

dot_loop-slash_dot :
    (start : Bool) (s : Bytes) → dot_loop start s ≡ (start && starts_dot s || slash_dot s)
unfolding dot_loop
dot_loop-slash_dot true [] = refl
dot_loop-slash_dot false [] = refl
dot_loop-slash_dot true (c ∷ s) = let r = dot_loop-slash_dot (c == b'/') s in ground (arith, r)
dot_loop-slash_dot false (c ∷ s) = dot_loop-slash_dot (c == b'/') s

-- Which paths are refused, for every path: exactly those that begin with a dot or have one behind a
-- slash, so that empty components hide nothing.
pub path_has_dot_component-slash_dot :
    (path : Bytes) → path_has_dot_component path ≡ (starts_dot path || slash_dot path)
unfolding path_has_dot_component
path_has_dot_component-slash_dot path = dot_loop-slash_dot true path
