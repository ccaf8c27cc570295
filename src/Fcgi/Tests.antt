-- ===== src/Fcgi/Tests.antt =====
-- FastCGI: runs, and the theorems at concrete inputs.
use agent_httpd.Base.{
  LacksNul, ℕ, Bool, true, false, not, ◌&&◌, Option, none, some, List, [], ◌∷◌, length, take,
  is_some, replicate, length-replicate, ◌==◌, Bytes, codes, before, past, after, ◌≡◌, ◌⊎◌, inl, inr,
  refl, sym, arith, All, and_left, and_right,
}
use agent_httpd.Request.{HttpRequest}
use agent_httpd.Response.{decimal_loop}
use agent_httpd.Fcgi.{built, serve, parse_params, params_loop}
use agent_httpd.Fcgi.Client.{
  in_memory, spooled, cgi_params, put_params, fcgi_put_len, forward_to_fcgi,
}
use agent_httpd.Fcgi.Params.{IsPlain, sent}
use agent_httpd.Fcgi.Exchange.{serve-forward_to_fcgi, serve-forward_to_fcgi_wrapped}
use agent_httpd.Fcgi.Relay.{Relay, done_streamed, answer, relay, find_text, head_in}
use agent_httpd.Fcgi.Stream.{relay-answer, blank_line}

-- A pair whose lengths come first, as a standard client sends it; a cut one is dropped.
parse_params-standard :
    parse_params (1 ∷ 2 ∷ b'a' ∷ b'b' ∷ b'c' ∷ 3 ∷ []) ≡ (b'a' ∷ [], b'b' ∷ b'c' ∷ []) ∷ []
unfolding parse_params params_loop before
parse_params-standard = refl

abbrev no_nul : Bytes → Bool
no_nul [] = true
no_nul (c ∷ s) = not (c == 0) && no_nul s

lacks : (s : Bytes) → no_nul s ≡ true → LacksNul s
lacks [] h = tt
lacks (c ∷ s) h = (
  (λ e. let z : not (c == 0) ≡ true = and_left (not (c == 0)) (no_nul s) h in ground (arith, e, z)),
  lacks s (and_right (not (c == 0)) (no_nul s) h),
)

abbrev posted : ℕ → HttpRequest
posted n = record {
  method = codes "POST";
  path = codes "/a?b";
  protocol = codes "HTTP/1.1";
  host = codes "h";
  user_agent = [];
  referer = [];
  origin = [];
  sec_fetch_site = [];
  accept = [];
  accept_encoding = codes "gzip";
  connection = [];
  content_type = codes "text/plain";
  authorization = [];
  cookie = [];
  if_none_match = [];
  if_modified_since = [];
  expect = [];
  range = [];
  x_forwarded_for = [];
  content_length = n;
  chunked = false;
  te_unsupported = false;
  body_too_large = false;
  extra_headers = [];
}

abbrev posted_params : ℕ → List (Bytes × Option Bytes)
posted_params n = cgi_params (posted n) (some (codes "::1"))

abbrev plain_texts : List (Bytes × Option Bytes) → Bool
plain_texts [] = true
plain_texts ((n, none) ∷ ps) = no_nul n && plain_texts ps
plain_texts ((n, some v) ∷ ps) = (no_nul n && no_nul v) && plain_texts ps

IsPlain-All : (ps : List (Bytes × Option Bytes)) → plain_texts ps ≡ true → All IsPlain ps
IsPlain-All [] h = tt
IsPlain-All ((n, none) ∷ ps) h = (
  lacks n (and_left (no_nul n) (plain_texts ps) h),
  IsPlain-All ps (and_right (no_nul n) (plain_texts ps) h),
)
IsPlain-All ((n, some v) ∷ ps) h =
    let e = and_left (no_nul n && no_nul v) (plain_texts ps) h in
    (
      (lacks n (and_left (no_nul n) (no_nul v) e), lacks v (and_right (no_nul n) (no_nul v) e)),
      IsPlain-All ps (and_right (no_nul n && no_nul v) (plain_texts ps) h),
    )

small-IsPlain : All IsPlain (posted_params 2)
unfolding before past decimal_loop
small-IsPlain = IsPlain-All (posted_params 2) refl

large-IsPlain : All IsPlain (posted_params 65536)
unfolding before past decimal_loop
large-IsPlain = IsPlain-All (posted_params 65536) refl

serve-forward_to_fcgi_example :
    ((put_params [] (posted_params 2) ≡ none)
      × (forward_to_fcgi (posted 2) (some (codes "::1")) (spooled (codes "ok")) ≡ none))
    ⊎ ((w : Bytes) × (forward_to_fcgi (posted 2) (some (codes "::1")) (spooled (codes "ok"))
          ≡ some w)
        × (serve w ≡ built (sent (posted_params 2)) (codes "ok")))
serve-forward_to_fcgi_example =
    serve-forward_to_fcgi (posted 2) (some (codes "::1")) (spooled (codes "ok")) (codes "ok")
      small-IsPlain refl (inr refl) (λ e. omega (arith, e)) (omega arith)

-- These parameters fit.
put_params-fitting : is_some (put_params [] (posted_params 2)) ≡ true
unfolding before past decimal_loop put_params fcgi_put_len
put_params-fitting = refl

unfoldable large : Bytes
large = replicate 65536 b'x'

length-large : length large ≡ 65536
unfolding large
length-large = length-replicate {A = ℕ} 65536 b'x'

serve-forward_to_fcgi_wrapped_example :
    ((put_params [] (posted_params 65536) ≡ none)
      × (forward_to_fcgi (posted 65536) (some (codes "::1")) (in_memory large) ≡ none))
    ⊎ ((w : Bytes) × (forward_to_fcgi (posted 65536) (some (codes "::1")) (in_memory large)
          ≡ some w)
        × (serve w ≡ built (sent (posted_params 65536)) []))
serve-forward_to_fcgi_wrapped_example =
    serve-forward_to_fcgi_wrapped (posted 65536) (some (codes "::1")) (in_memory large) large
      large-IsPlain (sym length-large) (inl refl) length-large

relay-answer_example :
    (m : Relay) × (relay (answer 1 (codes "HTTP/1.1 200 OK\r\n\r\nhi")) ≡ done_streamed m)
    × (m.out ≡ codes "HTTP/1.1 200 OK\r\n\r\nhi")
    × (m.header_len
        ≡ head_in (find_text blank_line (take 65535 (codes "HTTP/1.1 200 OK\r\n\r\nhi"))))
relay-answer_example = relay-answer 1 (codes "HTTP/1.1 200 OK\r\n\r\nhi")

head_in-response : head_in (find_text blank_line (codes "HTTP/1.1 200 OK\r\n\r\nhi")) ≡ some 19
unfolding find_text after
head_in-response = refl
