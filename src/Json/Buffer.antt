-- ===== src/Json/Buffer.antt =====
-- The growable buffer: `sbuf`, `sb_reserve`, `sb_mem` and the writers on it. `realloc` is a parameter:
-- does a request of this many bytes succeed? `none` would be a doubling loop that does not end.
use native.Mathlib.Nat.{pow-succ'}
use agent_httpd.Base.{
  ℕ, zero, suc, ◌+◌, ◌*◌, ◌%◌, ◌^◌, ◌≤◌, ◌<◌, Bool, true, false, ◌&&◌, Option, none, some, [], ◌++◌,
  length, length-append, ltb, leb, ◌==◌, if◌then◌else◌, Bytes, ◌≡◌, ◌⊎◌, inl, inr, refl, ap, ◌∙◌,
  arith, Bool-cases,
}

-- `p` is NULL where `capacity` is 0.
pub record Sbuf : Type 0 where
  pub bytes : Bytes
  pub capacity : ℕ
  pub oom : Bool

abbrev pub no_buffer : Sbuf
no_buffer = record { bytes = []; capacity = 0; oom = false }

-- `while (cap < need) cap *= 2;` on a `size_t`. Every round doubles, so 64 rounds reach 0 or `need`.
unfoldable pub grow : ℕ → ℕ → ℕ → Option ℕ
grow zero capacity need = none
grow (suc fuel) capacity need =
    let more = grow fuel (capacity * 2 % 2 ^ 64) need in
    if ltb capacity need then more else some capacity

unfoldable pub sb_reserve : (ℕ → Bool) → Sbuf → ℕ → Option Sbuf
sb_reserve realloc b extra =
    let need = length b.bytes + extra + 1 in
    if b.oom
    then some b
    else if ltb 0 b.capacity && leb need b.capacity
    then some b
    else elim (grow 65 (if b.capacity == 0 then 256 else b.capacity) need) [
      | none ↦ none
      | some capacity ↦
          some
            (if realloc capacity then record b { capacity = capacity } else record b { oom = true })
    ]

unfoldable pub sb_mem : (ℕ → Bool) → Sbuf → Bytes → Option Sbuf
sb_mem realloc b s = elim (sb_reserve realloc b (length s)) [
  | none ↦ none
  | some b' ↦ some (if b'.oom then b' else record b' { bytes = b'.bytes ++ s })
]

-- Space for the NUL is always there.
pub record IsBuffer (b : Sbuf) : Type 0 where
  pub room : (b.bytes ≡ []) ⊎ (length b.bytes < b.capacity)

grow_step :
    (fuel capacity need : ℕ)
    → capacity < need
    → capacity < 2 ^ 63
    → grow (suc fuel) capacity need ≡ grow fuel (capacity * 2) need
unfolding grow
grow_step fuel capacity need small fits =
    let t : ltb capacity need ≡ true = ground arith in
    let w : capacity * 2 % 2 ^ 64 ≡ capacity * 2 = omega arith in
    rw (t, if◌then◌else◌) (ap (λ x. grow fuel x need) w)

grow_stop :
    (fuel capacity need : ℕ) → need ≤ capacity → grow (suc fuel) capacity need ≡ some capacity
unfolding grow
grow_stop fuel capacity need large =
    let t : ltb capacity need ≡ false = ground arith in rw (t, if◌then◌else◌) refl

-- Doubling reaches every size up to 2 ^ 63 without a wrap.
grow_reaches :
    (fuel capacity need : ℕ)
    → 0 < capacity
    → need ≤ 2 ^ 63
    → need ≤ capacity * 2 ^ fuel
    → (c : ℕ) × (grow (suc fuel) capacity need ≡ some c) × (need ≤ c) × (0 < c)
grow_reaches zero capacity need p h k =
    (capacity, grow_stop 0 capacity need (omega (arith, k)), omega (arith, k), p)
grow_reaches (suc fuel) capacity need p h k = elim (Bool-cases (ltb capacity need)) [
  | inr large ↦ (capacity, grow_stop (suc fuel) capacity need (ground arith), ground arith, p)
  | inl small ↦
      let l : capacity < need = ground arith in
      let (c, e, m, q) =
        grow_reaches fuel (capacity * 2) need (omega arith) h
          (omega (arith, k, ap (λ (t : ℕ). capacity * t) (pow-succ' 2 fuel))) in
      (c, grow_step (suc fuel) capacity need l (omega arith) ∙ e, m, q)
]

-- A buffer behind one write: the bytes were appended, or memory ran out and the old bytes stay.
pub record Wrote (b b' : Sbuf) (s : Bytes) : Type 0 where
  pub valid : IsBuffer b'
  pub result :
      ((b'.oom ≡ true) × (b'.bytes ≡ b.bytes)) ⊎ ((b'.oom ≡ false) × (b'.bytes ≡ b.bytes ++ s))

record Reserved (b b' : Sbuf) (extra : ℕ) : Type 0 where
  valid : IsBuffer b'
  same : b'.bytes ≡ b.bytes
  room : (b'.oom ≡ true) ⊎ ((b'.oom ≡ false) × (length b.bytes + extra < b'.capacity))

abbrev start_capacity : Sbuf → ℕ
start_capacity b = if b.capacity == 0 then 256 else b.capacity

module _ (realloc : ℕ → Bool) where
  sb_reserve-Reserved :
      (b : Sbuf) (extra : ℕ)
      → IsBuffer b
      → length b.bytes + extra + 1 ≤ 2 ^ 63
      → (b' : Sbuf) × (sb_reserve realloc b extra ≡ some b') × Reserved b b' extra
  unfolding sb_reserve
  sb_reserve-Reserved b extra v h = elim (Bool-cases b.oom) [
    | inl q ↦ (b, ground arith, record { valid = v; same = refl; room = inl q })
    | inr q ↦ elim (Bool-cases (ltb 0 b.capacity && leb (length b.bytes + extra + 1) b.capacity)) [
      | inl fits ↦
          (b, ground arith, record { valid = v; same = refl; room = inr (q, ground arith) })
      | inr tight ↦
          let (c, e, m, p) =
            grow_reaches 64 (start_capacity b) (length b.bytes + extra + 1) (ground arith) h
              (ground arith) in
          elim (Bool-cases (realloc c)) [
            | inl got ↦ (
              record b { capacity = c },
              ground arith,
              record {
                valid = record { room = inr (omega arith) };
                same = refl;
                room = inr (q, omega arith);
              },
            )
            | inr lost ↦ (
              record b { oom = true },
              ground arith,
              record { valid = record { room = v.room }; same = refl; room = inl refl },
            )
          ]
    ]
  ]

  -- Appending, on every branch. If the text and what the buffer holds stay below 2 ^ 63 bytes, then
  -- `sb_mem` returns; the buffer keeps a byte for the NUL; and either memory ran out, which sticks, and
  -- the old bytes are left, or the text stands behind them.
  pub sb_mem-Wrote :
      (b : Sbuf) (s : Bytes)
      → IsBuffer b
      → length b.bytes + length s + 1 ≤ 2 ^ 63
      → (b' : Sbuf) × (sb_mem realloc b s ≡ some b') × Wrote b b' s
  unfolding sb_mem
  sb_mem-Wrote b s v h =
      let (r, e, w) = sb_reserve-Reserved b (length s) v h in
      elim w.room [
        | inl lost ↦ (r, ground arith, record { valid = w.valid; result = inl (lost, w.same) })
        | inr (got, room) ↦ (
          record r { bytes = r.bytes ++ s },
          ground arith,
          record {
            valid = record {
              room = inr (omega (arith, length-append r.bytes s, ap length w.same));
            };
            result = inr (got, ap (λ x. x ++ s) w.same);
          },
        )
      ]
