-- ===== src/Validators/Tests.antt =====
-- Conditional requests and codings: runs, and the theorem at a concrete list.
use agent_httpd.Base.{
  true, false, [], ◌∷◌, ◌≡◌, refl, Bytes, codes, same, after, drop_while, take_while,
  drop_last_while, All,
}
use agent_httpd.Range.{strtoll, skip_space, signed, convert, scan_decimal}
use agent_httpd.Validators.{match_loop, etag_matches, codings_match, coding_loop, accepts_gzip}
use agent_httpd.Validators.Listed.{
  IsMember, Tag, printed, all_printed, any_equal, joined, etag_matches-joined,
}

abbrev first_tag : Bytes
first_tag = codes "\"a-1\""

abbrev second_tag : Bytes
second_tag = codes "W/\"5-6a\""

listed_tags : All IsMember (first_tag ∷ second_tag ∷ [])
unfolding drop_last_while
listed_tags = (
  record { no_comma = (refl, (refl, (refl, (refl, (refl, tt))))); starts = refl; ends = refl },
  (
    record {
      no_comma = (refl, (refl, (refl, (refl, (refl, (refl, (refl, (refl, tt))))))));
      starts = refl;
      ends = refl;
    },
    tt,
  ),
)

abbrev weak_tag : Tag
weak_tag = (true, codes "\"5-6a\"")

abbrev strong_tag : Tag
strong_tag = (false, codes "\"a-1\"")

etag_matches-joined_example :
    etag_matches
      (joined (all_printed (strong_tag ∷ weak_tag ∷ [])))
      (printed (false, codes "\"5-6a\""))
    ≡ any_equal (strong_tag ∷ weak_tag ∷ []) (false, codes "\"5-6a\"")
etag_matches-joined_example =
    etag_matches-joined strong_tag (weak_tag ∷ []) (false, codes "\"5-6a\"") (refl, (refl, tt))
      listed_tags refl

etag_matches-weak : etag_matches (codes "\"a-1\", W/\"5-6a\"") (codes "W/\"5-6a\"") ≡ true
unfolding etag_matches match_loop same after drop_while take_while drop_last_while
etag_matches-weak = refl

-- A half is read as nothing, and refuses.
accepts_gzip-half : accepts_gzip (codes "gzip;q=0.5") ≡ false
unfolding accepts_gzip coding_loop codings_match same drop_while take_while strtoll skip_space
    signed convert scan_decimal
accepts_gzip-half = refl

accepts_gzip-list : accepts_gzip (codes "br, GZip") ≡ true
unfolding accepts_gzip coding_loop codings_match same drop_while take_while
accepts_gzip-list = refl

-- A space ahead of the comma hides the coding.
accepts_gzip-spaced : accepts_gzip (codes "gzip , br") ≡ false
unfolding accepts_gzip coding_loop codings_match same drop_while take_while
accepts_gzip-spaced = refl
