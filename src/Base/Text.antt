-- ===== src/Base/Text.antt =====
-- C strings, as `<string.h>`, `<strings.h>` and `<ctype.h>` read them in the C locale: the list of bytes
-- before the terminating NUL.
use Prim.Native.Nat.{ℕ, ◌+◌}
use mathlib.Core.Path.{◌≡◌, refl, ap}
use mathlib.Core.Bool.{Bool, true, false, ◌&&◌, ◌||◌}
use mathlib.Core.Option.{Option, none, some}
use mathlib.Core.List.{List, [], ◌∷◌, ◌++◌}
use native.Mathlib.Omega.{arith}
use agent_httpd.Base.Lists.{All}
use agent_httpd.Base.Tests.{leb, and_right, ◌==◌, if◌then◌else◌}

abbrev pub is_upper : ℕ → Bool
is_upper c = leb b'A' c && leb c b'Z'

-- `tolower`.
abbrev pub to_lower : ℕ → ℕ
to_lower c = if is_upper c then c + 32 else c

abbrev pub is_alnum : ℕ → Bool
is_alnum c = leb b'0' c && leb c b'9' || is_upper c || leb b'a' c && leb c b'z'

-- `isspace`.
abbrev pub is_whitespace : ℕ → Bool
is_whitespace c = c == b' ' || leb 9 c && leb c 13

-- `strcmp(s, t) == 0`.
unfoldable pub same : List ℕ → List ℕ → Bool
same [] [] = true
same (x ∷ xs) (y ∷ ys) = x == y && same xs ys
same _ _ = false

-- `strcasecmp(s, t) == 0`.
unfoldable pub same_ci : List ℕ → List ℕ → Bool
same_ci [] [] = true
same_ci (c ∷ s) (d ∷ t) = to_lower c == to_lower d && same_ci s t
same_ci _ _ = false

-- `strncmp(s, w, strlen(w)) == 0`, and what follows.
unfoldable pub after : List ℕ → List ℕ → Option (List ℕ)
after [] s = some s
after (x ∷ w) [] = none
after (x ∷ w) (c ∷ s) = if c == x then after w s else none

-- `strncasecmp(s, w, strlen(w)) == 0`, and what follows.
unfoldable pub after_ci : List ℕ → List ℕ → Option (List ℕ)
after_ci [] s = some s
after_ci (x ∷ w) [] = none
after_ci (x ∷ w) (c ∷ s) = if to_lower c == to_lower x then after_ci w s else none

abbrev pub is_some {ℓ} : {A : Type ℓ} → Option A → Bool
is_some none = false
is_some (some a) = true

-- `strchr(s, c)`, and what follows the byte.
unfoldable pub past : ℕ → List ℕ → Option (List ℕ)
past c [] = none
past c (x ∷ s) = if x == c then some s else past c s

-- What stands before the first `c`, or all.
unfoldable pub before : ℕ → List ℕ → List ℕ
before c [] = []
before c (x ∷ s) = if x == c then [] else x ∷ before c s

unfoldable pub drop_while : (ℕ → Bool) → List ℕ → List ℕ
drop_while f [] = []
drop_while f (c ∷ s) = if f c then drop_while f s else c ∷ s

unfoldable pub take_while : (ℕ → Bool) → List ℕ → List ℕ
take_while f [] = []
take_while f (c ∷ s) = if f c then c ∷ take_while f s else []

-- `while (n > 0 && f(s[n - 1])) n--;`
unfoldable pub drop_last_while : (ℕ → Bool) → List ℕ → List ℕ
drop_last_while f [] = []
drop_last_while f (c ∷ s) = elim (drop_last_while f s) [
  | [] ↦ if f c then [] else c ∷ []
  | d ∷ ds ↦ c ∷ d ∷ ds
]

abbrev pub or_else {ℓ} : {A : Type ℓ} → Option A → Option A → Option A
or_else none o = o
or_else (some a) o = some a

abbrev pub or_value {ℓ} : {A : Type ℓ} → Option A → A → A
or_value none a = a
or_value (some b) a = b

pub same-eq : (s t : List ℕ) → same s t ≡ true → s ≡ t
unfolding same
same-eq [] [] h = refl
same-eq [] (y ∷ t) h = absurd (cc)
same-eq (x ∷ s) [] h = absurd (cc)
same-eq (x ∷ s) (y ∷ t) h =
    let p : x ≡ y = ground arith in let q = same-eq s t (and_right (x == y) (same s t) h) in cc

-- A byte that a text does not have.
abbrev pub Lacks : ℕ → ℕ → Type 0
Lacks x c = (c == x) ≡ false

pub before-append : (x : ℕ) (w s : List ℕ) → All (Lacks x) w → before x (w ++ (x ∷ s)) ≡ w
unfolding before
before-append x [] s h = let e : (x == x) ≡ true = ground arith in rw (e, if◌then◌else◌) refl
before-append x (c ∷ w) s (h, hs) = rw (h, if◌then◌else◌) (ap (◌∷◌ c) (before-append x w s hs))

pub past-append : (x : ℕ) (w s : List ℕ) → All (Lacks x) w → past x (w ++ (x ∷ s)) ≡ some s
unfolding past
past-append x [] s h = let e : (x == x) ≡ true = ground arith in rw (e, if◌then◌else◌) refl
past-append x (c ∷ w) s (h, hs) = rw (h, if◌then◌else◌) (past-append x w s hs)

pub before-Lacks : (x : ℕ) (w : List ℕ) → All (Lacks x) w → before x w ≡ w
unfolding before
before-Lacks x [] h = refl
before-Lacks x (c ∷ w) (h, hs) = rw (h, if◌then◌else◌) (ap (◌∷◌ c) (before-Lacks x w hs))

pub past-Lacks : (x : ℕ) (w : List ℕ) → All (Lacks x) w → past x w ≡ none
unfolding past
past-Lacks x [] h = refl
past-Lacks x (c ∷ w) (h, hs) = rw (h, if◌then◌else◌) (past-Lacks x w hs)

pub same_refl : (s : List ℕ) → same s s ≡ true
unfolding same
same_refl [] = refl
same_refl (c ∷ s) = let e : (c == c) ≡ true = ground arith in rw (e) (same_refl s)
