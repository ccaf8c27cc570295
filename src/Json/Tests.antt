-- ===== src/Json/Tests.antt =====
-- Runs of the JSON helpers, and their theorems at concrete inputs.
use agent_httpd.Base.{
  ◌<◌, ◌≡◌, ◌⊎◌, false, refl, codes, [], ◌∷◌, ◌++◌, inl, arith, Bytes, true, false, some, length, ℕ,
}
use agent_httpd.Json.{
  jread_string, read_loop, read_escape, read_unicode, hex4, low_escape, utf8_put, utf8, put_bytes,
  jfind_value, jws, expect, find_loop, is_end, read_key, c_string, equal, next_member, jskip_value,
  skip_value_at, skip_nested, skip_scalar,
}
use agent_httpd.Json.Buffer.{Sbuf, IsBuffer, no_buffer, sb_mem, sb_reserve, grow}
use agent_httpd.Json.Writer.{sb_json_str, write_chars, escape}
use agent_httpd.Json.RoundTrip.{jread_string-sb_json_str}
use agent_httpd.Json.Bounds.{jread_string-Bounded}

abbrev reply : Bytes
reply = codes " {\"n\": [1, \"]\", {\"b\": 2}], \"b\" : \"x\\u0041\\ud83d\\ude00\", \"c\": 3}"

jfind_value-reply : jfind_value reply (codes "c") ≡ some (codes "3}")
unfolding jfind_value jread_string read_loop read_escape read_unicode hex4 low_escape utf8_put utf8
    put_bytes jws expect find_loop is_end read_key c_string equal next_member jskip_value
    skip_value_at skip_nested skip_scalar
jfind_value-reply = refl

jread_string-face :
    jread_string (codes "\"x\\u0041\\ud83d\\ude00\\n\",") 64
    ≡ some (codes ",", b'x' ∷ b'A' ∷ 0xF0 ∷ 0x9F ∷ 0x98 ∷ 0x80 ∷ b'\n' ∷ [])
unfolding jread_string read_loop read_escape read_unicode hex4 low_escape utf8_put utf8 put_bytes
jread_string-face = refl

-- The buffer cuts off what does not fit, in the middle of a code point.
jread_string-cut : jread_string (codes "\"x\\ud83d\\ude00\"") 4 ≡ some ([], b'x' ∷ 0xF0 ∷ 0x9F ∷ [])
unfolding jread_string read_loop read_escape read_unicode hex4 low_escape utf8_put utf8 put_bytes
jread_string-cut = refl

abbrev quoted : Bytes
quoted = codes "a\"\\\n\u{1};z"

sb_json_str-quoted :
    sb_json_str (λ n. true) no_buffer quoted
    ≡ some (record { bytes = codes "\"a\\\"\\\\\\n\\u0001;z\""; capacity = 256; oom = false })
unfolding sb_json_str write_chars escape sb_mem sb_reserve grow
sb_json_str-quoted = refl

no_buffer-IsBuffer : IsBuffer no_buffer
no_buffer-IsBuffer = record { room = inl refl }

jread_string-sb_json_str_example :
    (b' : Sbuf) × (sb_json_str (λ n. true) no_buffer quoted ≡ some b')
    × ((b'.oom ≡ true)
        ⊎ ((b'.oom ≡ false)
            × ((text : Bytes) × (b'.bytes ≡ [] ++ text)
                × (jread_string (text ++ codes ", 1") 64 ≡ some (codes ", 1", quoted)))))
jread_string-sb_json_str_example =
    jread_string-sb_json_str (λ n. true) no_buffer quoted (codes ", 1") 64 no_buffer-IsBuffer refl
      (omega arith) (omega arith)

jread_string-Bounded_example :
    (length {A = ℕ} (b'x' ∷ 0xF0 ∷ 0x9F ∷ []) < 4)
    × (length {A = ℕ} [] < length (codes "\"x\\ud83d\\ude00\""))
jread_string-Bounded_example =
    jread_string-Bounded (codes "\"x\\ud83d\\ude00\"") 4 (omega arith) [] (b'x' ∷ 0xF0 ∷ 0x9F ∷ [])
      jread_string-cut
