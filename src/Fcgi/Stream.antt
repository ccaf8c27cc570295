-- ===== src/Fcgi/Stream.antt =====
-- The path of an answer of src/cgi/fastcgi.c: `answer` on one side, `relay` on the other.
use agent_httpd.Base.{
  ℕ, zero, suc, ◌-◌, ◌≤◌, ◌<◌, min, true, false, Option, some, [], ◌∷◌, ◌++◌, length, take, drop,
  replicate, ltb, if◌then◌else◌, Bytes, codes, ◌≡◌, inl, inr, refl, sym, ap, ◌∙◌, arith, Bool-cases,
  length-append, length-take, take_all, take-append_length, drop-append_length, length-drop,
  append_assoc, append-nil,
}
use agent_httpd.Fcgi.{stdout_type, send_frame, read_header, pad_len}
use agent_httpd.Fcgi.Relay.{
  end_request, stdout_loop, answer, find_text, head_in, Relay, done_streamed, pass_on, relay_loop,
  drop_loop, start, relay, body_bytes,
}
use agent_httpd.Fcgi.Frames.{padded, read_header-send_frame, drain_padding-send_frame}

take-drop : (n : ℕ) (s : Bytes) → take n s ++ drop n s ≡ s
take-drop zero s = refl
take-drop (suc n) [] = refl
take-drop (suc n) (c ∷ s) = ap (◌∷◌ c) (take-drop n s)

abbrev closing : ℕ → Bytes
closing id = send_frame end_request id (0 ∷ 0 ∷ 0 ∷ 0 ∷ 0 ∷ 0 ∷ 0 ∷ 0 ∷ [])

module _ (id fuel : ℕ) (l : Relay) where
  relay_loop-stdout :
      (frame rest : Bytes)
      → length frame < 65536
      → relay_loop (suc fuel) (send_frame stdout_type id frame ++ rest) l
        ≡ relay_loop fuel rest (pass_on frame l)
  unfolding relay_loop
  relay_loop-stdout frame rest h =
      let small : ltb 65536 (length frame) ≡ false = ground arith in
      let tail = replicate (pad_len (length frame)) 0 ++ rest in
      let there : ltb (length (padded frame rest)) (length frame) ≡ false =
        ground (arith, length-append frame tail) in
      rw
        (
          relay_loop,
          read_header-send_frame stdout_type id frame rest h,
          small,
          if◌then◌else◌,
          there,
          take-append_length (length frame) frame tail refl,
          drop-append_length (length frame) frame tail refl,
          drain_padding-send_frame (length frame) rest,
        )
        refl

  relay_loop-closing : relay_loop (suc fuel) (closing id) l ≡ done_streamed l
  unfolding relay_loop send_frame read_header drop_loop
  relay_loop-closing = refl

take-min : (n : ℕ) (s : Bytes) → take (min (length s) n) s ≡ take n s
take-min n s = elim (Bool-cases (ltb (length s) n)) [
  | inl e ↦
      let m : min (length s) n ≡ length s = ground (arith, e) in
      ap (λ k. take k s) m
      ∙ (take_all (length s) s (omega arith) ∙ sym (take_all n s (ground (arith, e))))
  | inr e ↦ let m : min (length s) n ≡ n = ground (arith, e) in ap (λ k. take k s) m
]

abbrev pub blank_line : Bytes
blank_line = codes "\r\n\r\n"

-- Where the head ends, by what is left.
abbrev head_end : Relay → Bytes → Option ℕ
head_end l [] = l.header_len
head_end l (c ∷ s) =
    if l.head_scan_done then l.header_len else head_in (find_text blank_line (take 65535 (c ∷ s)))

head_end_done : (l : Relay) (s : Bytes) → l.head_scan_done ≡ true → head_end l s ≡ l.header_len
head_end_done l [] e = refl
head_end_done l (c ∷ s) e = rw (e, if◌then◌else◌) refl

-- What is left of the answer, behind the records that have been passed on.
stream :
    (id fuel rounds : ℕ) (s : Bytes) (l : Relay)
    → length s < fuel
    → fuel ≤ rounds
    → (m : Relay) × (relay_loop rounds (stdout_loop fuel id s ++ closing id) l ≡ done_streamed m)
      × (m.out ≡ l.out ++ s)
      × (m.header_len ≡ head_end l s)
unfolding stdout_loop pass_on
stream id zero rounds s l h k = absurd (omega arith)
stream id (suc fuel) zero s l h k = absurd (omega arith)
stream id (suc fuel) (suc rounds) [] l h k =
    (l, relay_loop-closing id rounds l, sym (append-nil l.out), refl)
stream id (suc fuel) (suc rounds) (c ∷ s) l h k =
    let n = min (length (c ∷ s)) 65535 in
    let frame = take n (c ∷ s) in
    let rest = drop n (c ∷ s) in
    let (m, e, o, q) =
      stream id fuel rounds rest (pass_on frame l) (omega (arith, length-drop n (c ∷ s), h))
        (omega (arith, k)) in
    let z : ltb 0 (length (c ∷ s)) ≡ true = ground arith in
    let first =
      ap (λ t. relay_loop (suc rounds) t l)
        (append_assoc (send_frame stdout_type id frame) (stdout_loop fuel id rest) (closing id))
      ∙ relay_loop-stdout id rounds l frame (stdout_loop fuel id rest ++ closing id)
          (omega (arith, length-take n (c ∷ s))) in
    let frame_eq : frame ≡ take 65535 (c ∷ s) = take-min 65535 (c ∷ s) in
    (
      m,
      rw (z, if◌then◌else◌) (first ∙ e),
      o ∙ append_assoc l.out frame rest ∙ ap (λ t. l.out ++ t) (take-drop n (c ∷ s)),
      q
          ∙ head_end_done (pass_on frame l) rest refl
          ∙ ap (λ t. if l.head_scan_done then l.header_len else head_in (find_text blank_line t))
              frame_eq,
    )

nothing_found : (s : Bytes) → head_end start s ≡ head_in (find_text blank_line (take 65535 s))
unfolding find_text
nothing_found [] = refl
nothing_found (c ∷ s) = refl

-- No piece is empty, so the answer has as many bytes as the response at least.
length-stdout_loop :
    (id fuel : ℕ) (s : Bytes) → length s < fuel → length s ≤ length (stdout_loop fuel id s)
unfolding stdout_loop send_frame
length-stdout_loop id zero s h = absurd (omega arith)
length-stdout_loop id (suc fuel) [] h = omega arith
length-stdout_loop id (suc fuel) (c ∷ s) h =
    let n = min (length (c ∷ s)) 65535 in
    let frame = take n (c ∷ s) in
    let rest = drop n (c ∷ s) in
    let z : ltb 0 (length (c ∷ s)) ≡ true = ground arith in
    let zeros : Bytes = replicate (pad_len (length frame)) 0 in
    let more = length-stdout_loop id fuel rest (omega (arith, length-drop n (c ∷ s), h)) in
    rw (z, if◌then◌else◌)
      (omega (
        arith,
        more,
        length-drop n (c ∷ s),
        length-take n (c ∷ s),
        length-append (frame ++ zeros) (stdout_loop fuel id rest),
        length-append frame zeros,
      ))

-- A response of any length, sent in records and relayed, reaches the client byte for byte; the end of its
-- head is looked for in the first 65535 bytes.
pub relay-answer :
    (id : ℕ) (response : Bytes)
    → (m : Relay) × (relay (answer id response) ≡ done_streamed m)
      × (m.out ≡ response)
      × (m.header_len ≡ head_in (find_text blank_line (take 65535 response)))
unfolding relay answer
relay-answer id r =
    let wire = stdout_loop (suc (length r)) id r in
    let (m, e, o, q) =
      stream id (suc (length r)) (suc (length (wire ++ closing id))) r start (omega arith) (
        omega (
          arith,
          length-stdout_loop id (suc (length r)) r (omega arith),
          length-append wire (closing id),
        )) in
    (m, e, o, q ∙ nothing_found r)

-- What is logged as the body's length: what follows the first blank line, where the first 65535 bytes
-- have one and something follows.
pub body_bytes-answer :
    (id : ℕ) (response : Bytes) (head : ℕ)
    → head_in (find_text blank_line (take 65535 response)) ≡ some head
    → head < length response
    → (m : Relay) × (relay (answer id response) ≡ done_streamed m)
      × (body_bytes m ≡ length response - head)
body_bytes-answer id r head h k =
    let (m, e, o, q) = relay-answer id r in (m, e, counted m r head (q ∙ h) (ap length o) k)
  where
    counted :
        (m : Relay) (r : Bytes) (head : ℕ)
        → m.header_len ≡ some head
        → length m.out ≡ length r
        → head < length r
        → body_bytes m ≡ length r - head
    counted m r head f g k =
        let z : ltb head (length r) ≡ true = ground (arith, k) in rw (f, g, z, if◌then◌else◌) refl
