-- ===== src/Base/Nul.antt =====
-- Texts without a NUL.
use Prim.Native.Nat.{ℕ, zero, suc}
use mathlib.Core.Path.{◌≡◌, refl, ap}
use mathlib.Core.Logic.{◌≢◌, inl, inr}
use mathlib.Core.Bool.{false}
use mathlib.Core.List.{List, [], ◌∷◌, ◌++◌}
use native.Mathlib.Omega.{arith}
use agent_httpd.Base.Tests.{Bool-cases, ◌==◌, if◌then◌else◌}
use agent_httpd.Base.Lists.{All, drop}
use agent_httpd.Base.Text.{before}

abbrev pub LacksNul : List ℕ → Type 0
LacksNul s = All (λ c. c ≢ 0) s

pub before-LacksNul : (s : List ℕ) → LacksNul s → before 0 s ≡ s
unfolding before
before-LacksNul [] h = refl
before-LacksNul (c ∷ s) (h, hs) =
    let e : (c == 0) ≡ false = ground arith in
    rw (before, e, if◌then◌else◌) (ap (◌∷◌ c) (before-LacksNul s hs))

-- What a buffer holds as a C string has none.
pub LacksNul-before : (s : List ℕ) → LacksNul (before 0 s)
unfolding before
LacksNul-before [] = tt
LacksNul-before (c ∷ s) = elim (Bool-cases (c == 0)) [
  | inl e ↦ rw (before, e, if◌then◌else◌) tt
  | inr e ↦ rw (before, e, if◌then◌else◌) ((λ z. absurd (ground (arith, e, z))), LacksNul-before s)
]

pub All-append {ℓ κ} :
    {A : Type ℓ} (P : A → Type κ) (s t : List A) → All P s → All P t → All P (s ++ t)
All-append P [] t h k = k
All-append P (x ∷ s) t (h, hs) k = (h, All-append P s t hs k)

pub All-drop {ℓ κ} : {A : Type ℓ} (P : A → Type κ) (n : ℕ) (s : List A) → All P s → All P (drop n s)
All-drop P zero s h = h
All-drop P (suc n) [] h = h
All-drop P (suc n) (x ∷ s) (h, hs) = All-drop P n s hs
