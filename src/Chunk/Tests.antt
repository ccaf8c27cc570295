-- ===== src/Chunk/Tests.antt =====
-- Runs of the decoder, and its theorems at concrete inputs.
use agent_httpd.Base.{◌<◌, ◌≡◌, ◌≢◌, refl, codes, [], ◌++◌, inl, inr, arith, Bytes}
use agent_httpd.Chunk.{
  dechunk, loop, round_in, read_size, read_payload, read_trailer, find_lf, parse_size, skip_blanks,
  skip_sign, scan_size, hex_digit, begin_chunk, starts_with_cr, complete, undefined, exhausted,
  fresh, feed,
}
use agent_httpd.Chunk.Grammar.{
  decimal, lower, done, digit, SizeLine, blank_cr, Encodes, last, chunk,
}
use agent_httpd.Chunk.Decode.{Delivers, dechunk-Encodes}
use agent_httpd.Chunk.Resume.{Resumes, feed-append}
use agent_httpd.Chunk.Bounds.{IsValid, feed-IsValid}
use agent_httpd.Chunk.Progress.{feed-ne-exhausted}
use agent_httpd.Chunk.Lenient.{feed-HasNoSize}

abbrev hello : Bytes
hello = codes "5\r\nhello\r\n6;x=y\r\n world\r\n0\r\n\r\n"

dechunk-hello : (dechunk hello 100).0 ≡ complete
unfolding dechunk feed loop round_in read_size read_payload read_trailer find_lf parse_size
    skip_blanks skip_sign scan_size hex_digit begin_chunk starts_with_cr
dechunk-hello = refl

dechunk-hello_out : (dechunk hello 100).1.out ≡ codes "hello world"
unfolding dechunk feed loop round_in read_size read_payload read_trailer find_lf parse_size
    skip_blanks skip_sign scan_size hex_digit begin_chunk starts_with_cr
dechunk-hello_out = refl

dechunk-overflow : (dechunk (codes "1\r\nA\r\n7fffffffffffffff\r\n") 100).0 ≡ undefined
unfolding dechunk feed loop round_in read_size read_payload read_trailer find_lf parse_size
    skip_blanks skip_sign scan_size hex_digit begin_chunk starts_with_cr
dechunk-overflow = refl

ten_line : SizeLine (codes "a;x\r") 10
ten_line = record {
  first = b'a';
  others = [];
  rest = codes ";x\r";
  splits = refl;
  spells = digit {v = 10} (lower (omega arith) (omega arith) refl) done;
  short = omega arith;
  tail = (inr (omega arith), inl (omega arith), inl (omega arith));
  one_line = omega arith;
}

zero_line : SizeLine (codes "0\r") 0
zero_line = record {
  first = b'0';
  others = [];
  rest = codes "\r";
  splits = refl;
  spells = digit {v = 0} (decimal (omega arith) refl) done;
  short = omega arith;
  tail = (inl (omega arith), inl (omega arith), inl (omega arith));
  one_line = omega arith;
}

ten_bytes : Encodes (codes "a;x\r\n0123456789\r\n0\r\n\r\n") (codes "0123456789")
ten_bytes = chunk (codes "0123456789") 10 ten_line refl (omega arith) (last zero_line blank_cr)

dechunk-Encodes_example :
    Delivers
      (codes "0123456789")
      (dechunk (codes "a;x\r\n0123456789\r\n0\r\n\r\n" ++ codes "GET") 10)
dechunk-Encodes_example = dechunk-Encodes 10 (codes "GET") ten_bytes (omega arith) (omega arith)

feed-append_example :
    Resumes
      (feed (codes "5\r\nhe") 100 fresh)
      (feed (codes "5\r\nhe" ++ codes "llo\r\n0\r\n\r\n") 100 fresh)
      (feed (codes "5\r\nhe" ++ codes "llo\r\n0\r\n\r\n") 100)
feed-append_example =
    feed-append (codes "5\r\nhe") (codes "llo\r\n0\r\n\r\n") 100 fresh (omega arith)

feed-IsValid_example :
    IsValid hello 100 (feed hello 100 fresh).1
    × ((feed hello 100 fresh).0 ≡ undefined → 0 < (feed hello 100 fresh).1.written)
feed-IsValid_example = feed-IsValid hello 100 fresh (omega arith) (record {
  within = omega arith;
  room = omega arith;
  counted = refl;
  awaited = λ e. omega arith;
})

feed-ne-exhausted_example : (feed hello 100 fresh).0 ≢ exhausted
feed-ne-exhausted_example = feed-ne-exhausted hello 100 fresh (omega arith)

feed-HasNoSize_example : Delivers [] (feed (codes "xyz\r\n\r\n") 65536 fresh)
feed-HasNoSize_example =
    feed-HasNoSize (codes "xyz\r\n\r\n") 65536 fresh (codes "xyz\r") (codes "\r\n") [] refl
      (omega arith) refl (omega arith) (omega arith) blank_cr refl
