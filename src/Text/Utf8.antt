-- ===== src/Text/Utf8.antt =====
-- `utf8_valid_prefix` and `set_str_utf8` of src/core/util.c.
use agent_httpd.Base.{
  ℕ, zero, suc, ◌+◌, ◌-◌, ◌≤◌, ◌<◌, true, false, none, some, List, [], ◌∷◌, ◌++◌, length,
  length-append, append_assoc, take, drop-append_length, All, ltb, ltb→lt, leb, ◌==◌, if◌then◌else◌,
  and_then-some, Bytes, ◌≡◌, inl, inr, refl, sym, ap, ◌∙◌, arith, Bool-cases,
}
use agent_httpd.Text.{width_of, prefix_loop, utf8_valid_prefix, set_str_utf8}

-- A sequence as long as its lead byte says.
abbrev pub IsSequence : Bytes → Type 0
IsSequence [] = ⊥
IsSequence (b ∷ bs) = length (b ∷ bs) ≡ width_of b

abbrev pub flat : List Bytes → Bytes
flat [] = []
flat (s ∷ ss) = s ++ flat ss

-- The sequences at the front that fit into `room` bytes.
abbrev pub fitting : ℕ → List Bytes → List Bytes
fitting room [] = []
fitting room (s ∷ ss) = if ltb room (length s) then [] else s ∷ fitting (room - length s) ss

width_pos : (b : ℕ) → 0 < width_of b
width_pos b = ground arith

not_less : (a b : ℕ) → b ≤ a → ltb a b ≡ false
not_less a b h = ground arith

prefix_loop_step :
    (fuel room end b : ℕ) (bs rest : Bytes)
    → length (b ∷ bs) ≡ width_of b
    → width_of b ≤ room
    → prefix_loop (suc fuel) room end (b ∷ bs ++ rest)
      ≡ prefix_loop fuel (room - width_of b) (end + width_of b) rest
unfolding prefix_loop
prefix_loop_step fuel room end b bs rest q h =
    let w = width_of b in
    let fits : ltb room w ≡ false = ground arith in
    let l = length-append (b ∷ bs) rest in
    let whole : ltb (length (b ∷ bs ++ rest)) w ≡ false =
      not_less (length (b ∷ bs ++ rest)) w (omega (arith, l, q)) in
    rw (fits, whole, if◌then◌else◌)
      (ap (λ r. prefix_loop fuel (room - w) (end + w) r)
        (drop-append_length w (b ∷ bs) rest (sym q)))

prefix_loop_stop :
    (fuel room end b : ℕ) (bs : Bytes)
    → room < width_of b
    → prefix_loop (suc fuel) room end (b ∷ bs) ≡ some end
unfolding prefix_loop
prefix_loop_stop fuel room end b bs h =
    let full : ltb room (width_of b) ≡ true = ground arith in rw (full, if◌then◌else◌) refl

prefix_loop-fitting :
    (fuel room end : ℕ) (ss : List Bytes)
    → All IsSequence ss
    → room ≤ fuel
    → prefix_loop fuel room end (flat ss) ≡ some (end + length (flat (fitting room ss)))
unfolding prefix_loop
prefix_loop-fitting zero room end [] h k = ap some (omega arith)
prefix_loop-fitting (suc fuel) room end [] h k = ap some (omega arith)
prefix_loop-fitting fuel room end ([] ∷ ss) (q, h) k = elim q [ ]
prefix_loop-fitting zero room end ((b ∷ bs) ∷ ss) (q, h) k =
    let t : ltb room (length (b ∷ bs)) ≡ true = ground arith in
    rw (t, if◌then◌else◌) (ap some (omega arith))
prefix_loop-fitting (suc fuel) room end ((b ∷ bs) ∷ ss) (q, h) k =
    elim (Bool-cases (ltb room (length (b ∷ bs)))) [
      | inl t ↦
          rw (t, if◌then◌else◌)
            (prefix_loop_stop fuel room end b (bs ++ flat ss)
                (omega (arith, q, ltb→lt room (length (b ∷ bs)) t))
              ∙ ap some (omega arith))
      | inr t ↦
          let n = room - width_of b in
          let m : room - length (b ∷ bs) ≡ n = omega (arith, q) in
          let p = width_pos b in
          let l = length-append (b ∷ bs) (flat (fitting n ss)) in
          rw (t, if◌then◌else◌)
            (prefix_loop_step fuel room end b bs (flat ss) q (ground (arith, q, t))
              ∙ prefix_loop-fitting fuel n (end + width_of b) ss h (omega (arith, p))
              ∙ ap some (omega (arith, l, q))
              ∙ ap (λ x. some (end + length (b ∷ bs ++ flat (fitting x ss)))) (sym m))
    ]

take_more : (s x y : Bytes) → take (length x) y ≡ x → take (length (s ++ x)) (s ++ y) ≡ s ++ x
take_more [] x y h = h
take_more (c ∷ s) x y h = ap (λ t. c ∷ t) (take_more s x y h)

take-fitting :
    (room : ℕ) (ss : List Bytes)
    → take (length (flat (fitting room ss))) (flat ss) ≡ flat (fitting room ss)
take-fitting room [] = refl
take-fitting room (s ∷ ss) = elim (Bool-cases (ltb room (length s))) [
  | inl t ↦ rw (t, if◌then◌else◌) refl
  | inr t ↦
      rw (t, if◌then◌else◌)
        (take_more s (flat (fitting (room - length s) ss)) (flat ss)
          (take-fitting (room - length s) ss))
]

length-fitting : (room : ℕ) (ss : List Bytes) → length (flat (fitting room ss)) ≤ length (flat ss)
length-fitting room [] = omega arith
length-fitting room (s ∷ ss) = elim (Bool-cases (ltb room (length s))) [
  | inl t ↦ rw (t, if◌then◌else◌) (omega arith)
  | inr t ↦
      let r = length-fitting (room - length s) ss in
      rw (t, if◌then◌else◌)
        (omega (
          arith,
          r,
          length-append s (flat (fitting (room - length s) ss)),
          length-append s (flat ss),
        ))
]

at_most : (a b : ℕ) → a ≤ b → leb a b ≡ true
at_most a b h = ground arith

-- Whole sequences in, whole sequences out. For every list of sequences, each as long as its lead byte
-- says, and every buffer of at least one byte: `set_str_utf8` of them all reads no byte behind the NUL
-- and leaves the sequences at the front that fit beside the NUL, and nothing of the next.
pub set_str_utf8-fitting :
    (dst_size : ℕ) (ss : List Bytes)
    → All IsSequence ss
    → set_str_utf8 dst_size (flat ss) ≡ some (flat (fitting (dst_size - 1) ss))
unfolding set_str_utf8 utf8_valid_prefix
set_str_utf8-fitting dst_size ss h =
    let f = fitting (dst_size - 1) ss in
    let e = prefix_loop-fitting (dst_size - 1) (dst_size - 1) 0 ss h (omega arith) in
    let n : 0 + length (flat f) ≡ length (flat f) = omega arith in
    let l = length-fitting (dst_size - 1) ss in
    let t : leb (length (flat f)) (length (flat ss)) ≡ true =
      at_most (length (flat f)) (length (flat ss)) l in
    and_then-some (λ m. if leb m (length (flat ss)) then some (take m (flat ss)) else none)
      (e ∙ ap some n)
    ∙ rw (t, if◌then◌else◌) (ap some (take-fitting (dst_size - 1) ss))

overread :
    (fuel room end : ℕ) (ss : List Bytes) (b : ℕ) (bs : Bytes)
    → All IsSequence ss
    → length (b ∷ bs) < width_of b
    → length (flat ss) + width_of b < room
    → room ≤ fuel
    → prefix_loop fuel room end (flat ss ++ b ∷ bs) ≡ none
unfolding prefix_loop
overread zero room end ss b bs h k l m = absurd (omega arith)
overread (suc fuel) room end [] b bs h k l m =
    let fits : ltb room (width_of b) ≡ false = not_less room (width_of b) (omega (arith, l)) in
    let more : (room == width_of b) ≡ false = ground (arith, l) in
    let cut : ltb (length (b ∷ bs)) (width_of b) ≡ true = ground (arith, k) in
    rw (fits, cut, more, if◌then◌else◌) refl
overread fuel room end ([] ∷ ss) b bs (q, h) k l m = elim q [ ]
overread (suc fuel) room end ((c ∷ cs) ∷ ss) b bs (q, h) k l m =
    let p = width_pos c in
    let n = length-append (c ∷ cs) (flat ss) in
    ap (λ s. prefix_loop (suc fuel) room end s) (append_assoc (c ∷ cs) (flat ss) (b ∷ bs))
    ∙ prefix_loop_step fuel room end c cs (flat ss ++ b ∷ bs) q (omega (arith, l, n, q))
    ∙ overread fuel (room - width_of c) (end + width_of c) ss b bs h k (omega (arith, l, n, q))
        (omega (arith, p, m))

-- A cut-off sequence is read past. If the source ends within a sequence, and `max` lies behind that
-- sequence's announced end, then `utf8_valid_prefix` reads behind the terminating NUL.
pub utf8_valid_prefix_overread :
    (ss : List Bytes) (b : ℕ) (bs : Bytes) (max : ℕ)
    → All IsSequence ss
    → length (b ∷ bs) < width_of b
    → length (flat ss) + width_of b < max
    → utf8_valid_prefix (flat ss ++ b ∷ bs) max ≡ none
unfolding utf8_valid_prefix
utf8_valid_prefix_overread ss b bs max h k l = overread max max 0 ss b bs h k l (omega arith)
