-- ===== src/Fcgi/Frames.antt =====
-- One record on the wire, src/cgi/fastcgi.c: `send_frame`, and the reads that take it apart.
use agent_httpd.Base.{
  ℕ, zero, suc, ◌+◌, ◌*◌, ◌/◌, ◌%◌, ◌≤◌, ◌<◌, false, some, ◌++◌, length, replicate, Bytes, ltb,
  ◌==◌, if◌then◌else◌, ◌≡◌, refl, ap, arith, length-append, length-replicate, subst, append_assoc,
  take-append_length, drop-append_length, pair_eq,
}
use agent_httpd.Fcgi.{
  pad_len, send_frame, got, recv_n, drain_loop, drain_padding, drain_frame_body, FcgHeader, be16,
  read_header, Served, go_on,
}

-- The header that announces `content`.
abbrev pub announced : ℕ → ℕ → Bytes → FcgHeader
announced t id content = record {
  version = 1;
  type = t;
  request_id = be16 (id / 256) (id % 256);
  content_length = length content;
  padding_length = pad_len (length content);
}

-- What follows a header: the content and the padding.
abbrev pub padded : Bytes → Bytes → Bytes
padded content rest = content ++ (replicate (pad_len (length content)) 0 ++ rest)

header_eq :
    {t l l' p i i' : ℕ}
    → l ≡ l'
    → i ≡ i'
    → ◌≡◌ {A = FcgHeader}
        (record { version = 1; type = t; request_id = i; content_length = l; padding_length = p })
        (record { version = 1; type = t; request_id = i'; content_length = l'; padding_length = p })
header_eq {t} {p = p} e f = λ i. record {
  version = 1;
  type = t;
  request_id = f i;
  content_length = e i;
  padding_length = p;
}

split_byte : (n : ℕ) → n < 65536 → n % 65536 / 256 * 256 + n % 65536 % 256 ≡ n
split_byte n h = omega arith

-- A header of a content that fits reads back as it was meant.
pub read_header-send_frame :
    (t id : ℕ) (content rest : Bytes)
    → length content < 65536
    → read_header (send_frame t id content ++ rest)
      ≡ some (announced t id content, padded content rest)
unfolding read_header send_frame
read_header-send_frame t id content rest h =
    ap some (pair_eq (header_eq (split_byte (length content) h) refl) (append_assoc content _ rest))

pub pad_small : (n : ℕ) → pad_len n < 8
pad_small n = omega arith

-- A piece that is there is read whole.
pub recv_n-append :
    (size : ℕ) (s rest : Bytes) → length s ≤ size → recv_n size (length s) (s ++ rest) ≡ got s rest
recv_n-append size s rest h =
    let a : ltb size (length s) ≡ false = ground arith in
    let b : ltb (length (s ++ rest)) (length s) ≡ false = ground (arith, length-append s rest) in
    rw
      (
        a,
        b,
        if◌then◌else◌,
        take-append_length (length s) s rest refl,
        drop-append_length (length s) s rest refl,
      )
      refl

padding_read :
    (n : ℕ) (rest : Bytes)
    → n < 8
    → drain_padding n (replicate n 0 ++ rest) ≡ got (replicate n 0) rest
padding_read zero rest h = refl
padding_read (suc n) rest h =
    let k : length (replicate (suc n) 0) ≡ suc n = length-replicate (suc n) 0 in
    let e : recv_n 8 (suc n) (replicate (suc n) 0 ++ rest) ≡ got (replicate (suc n) 0) rest =
      subst (λ m. recv_n 8 m (replicate (suc n) 0 ++ rest) ≡ got (replicate (suc n) 0) rest) k
        (recv_n-append 8 (replicate (suc n) 0) rest (omega (arith, k, h))) in
    let z : (suc n == 0) ≡ false = ground (arith) in rw (z, if◌then◌else◌) e

-- The padding that `send_frame` writes is read whole.
pub drain_padding-send_frame :
    (n : ℕ) (rest : Bytes)
    → drain_padding (pad_len n) (replicate (pad_len n) 0 ++ rest)
      ≡ got (replicate (pad_len n) 0) rest
drain_padding-send_frame n rest = padding_read (pad_len n) rest (pad_small n)

pub go_on_padding :
    (n : ℕ) (rest : Bytes) (failed : Served) (next : Bytes → Served)
    → go_on (drain_frame_body 0 (pad_len n) (replicate (pad_len n) 0 ++ rest)) failed next
      ≡ next rest
unfolding drain_frame_body drain_loop
go_on_padding n rest failed next = ap (λ r. go_on r failed next) (drain_padding-send_frame n rest)
