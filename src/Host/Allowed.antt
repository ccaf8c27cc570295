-- ===== src/Host/Allowed.antt =====
-- The allowlist of `host_is_allowed` in src/core/util.c, as a list of entries.
use agent_httpd.Base.{
  ℕ, zero, suc, ◌≤◌, ◌<◌, Bool, true, false, Option, none, some, List, [], ◌∷◌, length, ◌==◌,
  if◌then◌else◌, Bytes, before, drop_while, drop_last_while, ◌≡◌, ◌⊎◌, inl, inr, refl, sym, ap, ◌∙◌,
  arith, Bool-cases,
}
use agent_httpd.Host.{
  split_host, entry_allows, is_separator, is_pad, from_comma, allow_loop, allowed_by,
  host_is_allowed,
}

-- The fields between the commas.
abbrev pub add_byte : ℕ → List Bytes → List Bytes
add_byte c [] = (c ∷ []) ∷ []
add_byte c (f ∷ fs) = (c ∷ f) ∷ fs

abbrev pub fields : Bytes → List Bytes
fields [] = [] ∷ []
fields (c ∷ s) = if c == b',' then [] ∷ fields s else add_byte c (fields s)

abbrev pub trim : Bytes → Bytes
trim f = drop_last_while is_pad (drop_while is_pad f)

-- A trimmed field, if it is not empty, or else what the others say.
abbrev pub or_entry : Bytes → Option Bytes → Bytes → Bool → Bool
or_entry hname hport [] others = others
or_entry hname hport (c ∷ e) others = if entry_allows hname hport (c ∷ e) then true else others

abbrev pub any_entry : Bytes → Option Bytes → List Bytes → Bool
any_entry hname hport [] = false
any_entry hname hport (f ∷ fs) = or_entry hname hport (trim f) (any_entry hname hport fs)

trim_pad : (c : ℕ) (f : Bytes) → is_pad c ≡ true → trim (c ∷ f) ≡ trim f
unfolding drop_while
trim_pad c f p = rw (p, if◌then◌else◌) refl

trim_empty : trim [] ≡ []
unfolding drop_while drop_last_while
trim_empty = refl

trim_solid : (c : ℕ) (f : Bytes) → is_pad c ≡ false → trim (c ∷ f) ≡ drop_last_while is_pad (c ∷ f)
unfolding drop_while
trim_solid c f p = rw (p, if◌then◌else◌) refl

drop_last_solid :
    (c : ℕ) (f : Bytes) → is_pad c ≡ false → (e : Bytes) × (drop_last_while is_pad (c ∷ f) ≡ c ∷ e)
unfolding drop_last_while
drop_last_solid c f p = solid_tail c (drop_last_while is_pad f) p
  where
    solid_tail :
        (c : ℕ) (t : Bytes)
        → is_pad c ≡ false
        → (e : Bytes) × ((elim t [ [] ↦ if is_pad c then [] else c ∷ [] | d ∷ ds ↦ c ∷ d ∷ ds ])
            ≡ c ∷ e)
    solid_tail c [] p = ([], rw (p, if◌then◌else◌) refl)
    solid_tail c (d ∷ ds) p = (d ∷ ds, refl)

drop_while-cases :
    (f : ℕ → Bool) (p : Bytes)
    → (drop_while f p ≡ []) ⊎ ((c : ℕ) × (s : Bytes) × (drop_while f p ≡ c ∷ s) × (f c ≡ false))
unfolding drop_while
drop_while-cases f [] = inl refl
drop_while-cases f (c ∷ s) = elim (Bool-cases (f c)) [
  | inl k ↦ rw (k, if◌then◌else◌) (drop_while-cases f s)
  | inr k ↦ inr (c, s, rw (k, if◌then◌else◌) refl, k)
]

module _ (hname : Bytes) (hport : Option Bytes) where
  any_pad :
      (c : ℕ) (fs : List Bytes)
      → is_pad c ≡ true
      → any_entry hname hport (add_byte c fs) ≡ any_entry hname hport fs
  any_pad c [] p = ap (λ t. or_entry hname hport t false) (trim_pad c [] p ∙ trim_empty)
  any_pad c (f ∷ fs) p =
      ap (λ t. or_entry hname hport t (any_entry hname hport fs)) (trim_pad c f p)

  any_comma :
      (c : ℕ) (s : Bytes)
      → (c == b',') ≡ true
      → any_entry hname hport (fields (c ∷ s)) ≡ any_entry hname hport (fields s)
  any_comma c s k =
      let e : fields (c ∷ s) ≡ [] ∷ fields s = rw (k, if◌then◌else◌) refl in
      ap (any_entry hname hport) e
      ∙ ap (λ t. or_entry hname hport t (any_entry hname hport (fields s))) trim_empty

  any_separator :
      (c : ℕ) (s : Bytes)
      → is_separator c ≡ true
      → any_entry hname hport (fields (c ∷ s)) ≡ any_entry hname hport (fields s)
  any_separator c s h = elim (Bool-cases (c == b',')) [
    | inl k ↦ any_comma c s k
    | inr k ↦
        ap (any_entry hname hport) (rw (k, if◌then◌else◌) refl)
        ∙ any_pad c (fields s) (ground (arith, h, k))
  ]

  any_drop :
      (p : Bytes)
      → any_entry hname hport (fields (drop_while is_separator p))
        ≡ any_entry hname hport (fields p)
  unfolding drop_while
  any_drop [] = refl
  any_drop (c ∷ s) = elim (Bool-cases (is_separator c)) [
    | inl k ↦ rw (k, if◌then◌else◌) (any_drop s ∙ sym (any_separator c s k))
    | inr k ↦ rw (k, if◌then◌else◌) refl
  ]

  abbrev rest_fields : Bytes → List Bytes
  rest_fields [] = []
  rest_fields (c ∷ s) = fields s

  fields_split : (p : Bytes) → fields p ≡ before b',' p ∷ rest_fields (from_comma p)
  unfolding before from_comma
  fields_split [] = refl
  fields_split (c ∷ s) = elim (Bool-cases (c == b',')) [
    | inl k ↦ rw (k, if◌then◌else◌) refl
    | inr k ↦ rw (k, if◌then◌else◌) (ap (add_byte c) (fields_split s))
  ]

  any_rest :
      (p : Bytes)
      → any_entry hname hport (rest_fields (from_comma p))
        ≡ any_entry hname hport (fields (from_comma p))
  unfolding from_comma
  any_rest [] = ap (λ t. or_entry hname hport t false) (sym trim_empty)
  any_rest (c ∷ s) = elim (Bool-cases (c == b',')) [
    | inl k ↦ rw (k, if◌then◌else◌) (sym (any_comma c s k))
    | inr k ↦ rw (k, if◌then◌else◌) (any_rest s)
  ]

  any_empty : false ≡ any_entry hname hport (fields [])
  any_empty = ap (λ t. or_entry hname hport t false) (sym trim_empty)

  length-from_comma : (p : Bytes) → length (from_comma p) ≤ length p
  unfolding from_comma
  length-from_comma [] = omega arith
  length-from_comma (c ∷ s) = elim (Bool-cases (c == b',')) [
    | inl k ↦ rw (k, if◌then◌else◌) (omega arith)
    | inr k ↦ rw (k, if◌then◌else◌) (omega (arith, length-from_comma s))
  ]

  length-drop_while : (f : ℕ → Bool) (p : Bytes) → length (drop_while f p) ≤ length p
  unfolding drop_while
  length-drop_while f [] = omega arith
  length-drop_while f (c ∷ s) = elim (Bool-cases (f c)) [
    | inl k ↦ rw (k, if◌then◌else◌) (omega (arith, length-drop_while f s))
    | inr k ↦ rw (k, if◌then◌else◌) (omega arith)
  ]

  -- The loop from a list that begins with an entry.
  abbrev round : ℕ → Bytes → Bool
  round fuel [] = false
  round fuel (c ∷ s) =
      if entry_allows hname hport (drop_last_while is_pad (before b',' (c ∷ s)))
      then true
      else allow_loop fuel hname hport (from_comma (c ∷ s))

  loop-round :
      (fuel : ℕ) (p : Bytes)
      → allow_loop (suc fuel) hname hport p ≡ round fuel (drop_while is_separator p)
  unfolding allow_loop
  loop-round fuel p = elim (drop_while is_separator p) [ [] ↦ refl | c ∷ s ↦ refl ]

  or_entry_solid :
      (c : ℕ) (f : Bytes) (r : Bool)
      → is_pad c ≡ false
      → or_entry hname hport (trim (c ∷ f)) r
        ≡ (if entry_allows hname hport (drop_last_while is_pad (c ∷ f)) then true else r)
  or_entry_solid c f r h =
      let (e, q) = drop_last_solid c f h in
      ap (λ t. or_entry hname hport t r) (trim_solid c f h ∙ q)
      ∙ ap (λ t. if entry_allows hname hport t then true else r) (sym q)

  before_solid :
      (c : ℕ) (s : Bytes) → is_separator c ≡ false → before b',' (c ∷ s) ≡ c ∷ before b',' s
  unfolding before
  before_solid c s h = let k : (c == b',') ≡ false = ground (arith, h) in rw (k, if◌then◌else◌) refl

  from_comma_solid :
      (c : ℕ) (s : Bytes) → is_separator c ≡ false → from_comma (c ∷ s) ≡ from_comma s
  unfolding from_comma
  from_comma_solid c s h =
      let k : (c == b',') ≡ false = ground (arith, h) in rw (k, if◌then◌else◌) refl

  round-any :
      (fuel c : ℕ) (s : Bytes)
      → is_separator c ≡ false
      → allow_loop fuel hname hport (from_comma (c ∷ s))
        ≡ any_entry hname hport (fields (from_comma (c ∷ s)))
      → round fuel (c ∷ s) ≡ any_entry hname hport (fields (c ∷ s))
  round-any fuel c s h k =
      let b = before_solid c s h in
      ap
        (λ r.
          if entry_allows hname hport (drop_last_while is_pad (before b',' (c ∷ s)))
          then true
          else r)
        (k ∙ sym (any_rest (c ∷ s)))
      ∙ ap
          (λ t.
            if entry_allows hname hport (drop_last_while is_pad t)
            then true
            else any_entry hname hport (rest_fields (from_comma (c ∷ s))))
          b
      ∙ sym (
          or_entry_solid c (before b',' s)
            (any_entry hname hport (rest_fields (from_comma (c ∷ s)))) (ground (arith, h)))
      ∙ ap
          (λ t.
            or_entry hname hport (trim t)
              (any_entry hname hport (rest_fields (from_comma (c ∷ s)))))
          (sym b)
      ∙ ap (any_entry hname hport) (sym (fields_split (c ∷ s)))

  loop-any :
      (fuel : ℕ) (p : Bytes)
      → length p < fuel
      → allow_loop fuel hname hport p ≡ any_entry hname hport (fields p)
  loop-any zero p h = absurd (omega arith)
  loop-any (suc fuel) p h = loop-round fuel p ∙ elim (drop_while-cases is_separator p) [
    | inl e ↦
        ap (round fuel) e
        ∙ any_empty
        ∙ ap (λ q. any_entry hname hport (fields q)) (sym e)
        ∙ any_drop p
    | inr (c, s, e, k) ↦
        let l = length-drop_while is_separator p in
        let m = length-from_comma s in
        let n = from_comma_solid c s k in
        ap (round fuel) e
        ∙ round-any fuel c s k
            (loop-any fuel (from_comma (c ∷ s)) (omega (arith, l, m, ap length e, ap length n)))
        ∙ ap (λ q. any_entry hname hport (fields q)) (sym e)
        ∙ any_drop p
  ]

-- The verdict for a host that was split.
abbrev pub verdict : Option (Bytes × Option Bytes) → Bytes → Bool
verdict none allowed = false
verdict (some (hname, hport)) allowed = any_entry hname hport (fields allowed)

allowed_by-verdict :
    (o : Option (Bytes × Option Bytes)) (allowed : Bytes) → allowed_by o allowed ≡ verdict o allowed
allowed_by-verdict none allowed = refl
allowed_by-verdict (some (hname, hport)) allowed =
    loop-any hname hport (suc (length allowed)) allowed (omega arith)

-- Which hosts are allowed. For every list that is not empty and every Host header that is not empty:
-- exactly those that split into a name and a port, such that one of the fields between the list's
-- commas, trimmed and not empty, allows them.
pub host_is_allowed-verdict :
    (a h : ℕ) (allowed host : Bytes)
    → host_is_allowed (a ∷ allowed) (h ∷ host) ≡ verdict (split_host (h ∷ host) 256) (a ∷ allowed)
unfolding host_is_allowed
host_is_allowed-verdict a h allowed host =
    allowed_by-verdict (split_host (h ∷ host) 256) (a ∷ allowed)
