-- ===== src/Fcgi/Exchange.antt =====
-- A whole request of src/cgi/fastcgi.c: `forward_to_fcgi` on one side, `serve` on the other.
use agent_httpd.Base.{
  ℕ, zero, suc, min, ◌+◌, ◌-◌, ◌≤◌, ◌<◌, true, false, Option, none, some, List, [], ◌∷◌, ◌++◌,
  length, drop, replicate, Bytes, ltb, ◌==◌, if◌then◌else◌, All, ◌≡◌, ◌≢◌, ◌⊎◌, inl, inr, refl, sym,
  ap, ◌∙◌, arith, Option-cases, length-append, append-nil, take_all,
}
use agent_httpd.Request.{HttpRequest}
use agent_httpd.Fcgi.{
  begin_request, params_type, stdin_type, Param, put_be16, send_frame, drain_loop, drain_frame_body,
  pad_len, go_on, read_header, parse_params, params_loop, Served, built, dropped, serve_loop, serve,
}
use agent_httpd.Fcgi.Client.{
  Upload, in_memory, spooled, cgi_params, put_params, spool_loop, put_stdin, forward_to_fcgi,
}
use agent_httpd.Fcgi.Frames.{read_header-send_frame, recv_n-append, go_on_padding}
use agent_httpd.Fcgi.Params.{IsPlain, sent, parse_params-put_params, put_params-fits}

module _ (fuel : ℕ) (content rest : Bytes) (params : List Param) (body : Bytes) where
  serve_loop-params :
      length content ≢ 0
      → length content < 65536
      → serve_loop (suc fuel) (send_frame params_type 1 content ++ rest) params body
        ≡ serve_loop fuel rest (parse_params content) body
  unfolding serve_loop
  serve_loop-params n h =
      let z : (length content == 0) ≡ false = ground arith in
      rw
        (
          serve_loop,
          read_header-send_frame params_type 1 content rest h,
          z,
          if◌then◌else◌,
          recv_n-append (length content) content (replicate (pad_len (length content)) 0 ++ rest)
              (omega arith),
        )
        (go_on_padding (length content) rest dropped
          (λ u. serve_loop fuel u (parse_params content) body))

  serve_loop-stdin :
      length content ≢ 0
      → length content < 65536
      → length body + length content ≤ 65536
      → serve_loop (suc fuel) (send_frame stdin_type 1 content ++ rest) params body
        ≡ serve_loop fuel rest params (body ++ content)
  unfolding serve_loop
  serve_loop-stdin n h k =
      let z : (length content == 0) ≡ false = ground arith in
      let l : ltb 65536 (length body + length content) ≡ false = ground arith in
      rw
        (
          serve_loop,
          read_header-send_frame stdin_type 1 content rest h,
          z,
          l,
          if◌then◌else◌,
          recv_n-append (length content) content (replicate (pad_len (length content)) 0 ++ rest)
              (omega arith),
        )
        (go_on_padding (length content) rest (built params (body ++ content))
          (λ u. serve_loop fuel u params (body ++ content)))

-- The records that carry nothing.
module _ (fuel : ℕ) (rest : Bytes) (params : List Param) (body : Bytes) where
  serve_loop-end_of_params :
      serve_loop (suc fuel) (send_frame params_type 1 [] ++ rest) params body
      ≡ serve_loop fuel rest params body
  unfolding serve_loop send_frame drain_frame_body drain_loop read_header
  serve_loop-end_of_params = refl

  serve_loop-end_of_stdin :
      serve_loop (suc fuel) (send_frame stdin_type 1 [] ++ rest) params body ≡ built params body
  unfolding serve_loop send_frame drain_frame_body drain_loop read_header
  serve_loop-end_of_stdin = refl

  -- A record of 65536 bytes reads as the end of the body.
  serve_loop-wrapped :
      (content : Bytes)
      → length content ≡ 65536
      → serve_loop (suc fuel) (send_frame stdin_type 1 content ++ rest) params body
        ≡ built params body
  unfolding serve_loop send_frame drain_frame_body drain_loop read_header
  serve_loop-wrapped content h = rw (h) refl

-- The parameters come whether there are any or not.
serve_loop-any_params :
    (fuel : ℕ) (content rest : Bytes)
    → length content < 65536
    → serve_loop (suc fuel) (send_frame params_type 1 content ++ rest) [] []
      ≡ serve_loop fuel rest (parse_params content) []
unfolding parse_params params_loop
serve_loop-any_params fuel [] rest h = serve_loop-end_of_params fuel rest [] []
serve_loop-any_params fuel (c ∷ s) rest h =
    serve_loop-params fuel (c ∷ s) rest [] [] (λ e. absurd (omega arith)) h

-- What the client sends ahead of the body.
abbrev pub opening : Bytes → Bytes → Bytes
opening params rest =
    send_frame begin_request 1 (put_be16 1 ++ (0 ∷ 0 ∷ 0 ∷ 0 ∷ 0 ∷ 0 ∷ []))
    ++ (send_frame params_type 1 params ++ (send_frame params_type 1 [] ++ rest))

abbrev role : Bytes
role = put_be16 1 ++ (0 ∷ 0 ∷ 0 ∷ 0 ∷ 0 ∷ 0 ∷ [])

go_on-role :
    (s : Bytes) (next : Bytes → Served)
    → go_on (drain_frame_body 8 0 (role ++ s)) dropped next ≡ next s
unfolding drain_frame_body drain_loop
go_on-role s next = rw (recv_n-append 8 role s (omega arith)) refl

serve-opening :
    (params rest : Bytes)
    → length params < 65536
    → (fuel : ℕ) × (length rest < fuel)
      × (serve (opening params rest) ≡ serve_loop fuel rest (parse_params params) [])
unfolding serve read_header send_frame
serve-opening params rest h =
    let more = send_frame params_type 1 [] ++ rest in
    let all = send_frame params_type 1 params ++ more in
    let k = length (drop 1 all) in
    let l : length rest < k =
      omega (arith, length-append (params ++ replicate (pad_len (length params)) 0) more) in
    let a : serve (opening params rest) ≡ serve_loop (suc (suc k)) all [] [] =
      go_on-role all (λ t. serve_loop (suc (length t)) t [] []) in
    (
      k,
      l,
      a
          ∙ serve_loop-any_params (suc k) params more h
          ∙ serve_loop-end_of_params k rest (parse_params params) [],
    )

two_rounds :
    (fuel : ℕ) (params body : Bytes)
    → length body ≢ 0
    → length body < 65536
    → 2 < fuel
    → serve_loop fuel
        (send_frame stdin_type 1 body ++ send_frame stdin_type 1 [])
        (parse_params params)
        []
      ≡ built (parse_params params) body
two_rounds zero params body n l f = absurd (omega arith)
two_rounds (suc zero) params body n l f = absurd (omega arith)
two_rounds (suc (suc fuel)) params body n l f =
    let end = send_frame stdin_type 1 [] in
    serve_loop-stdin (suc fuel) body end (parse_params params) [] n l (omega arith)
    ∙ (ap (λ t. serve_loop (suc fuel) t (parse_params params) body) (sym (append-nil end))
        ∙ serve_loop-end_of_stdin fuel [] (parse_params params) body)

-- The body in one record, and its end.
serve-one_record :
    (params body : Bytes)
    → length params < 65536
    → length body ≢ 0
    → length body < 65536
    → serve (opening params (send_frame stdin_type 1 body ++ send_frame stdin_type 1 []))
      ≡ built (parse_params params) body
unfolding send_frame
serve-one_record params body h n l =
    let end = send_frame stdin_type 1 [] in
    let (fuel, more, e) = serve-opening params (send_frame stdin_type 1 body ++ end) h in
    let f : 2 < fuel = omega (arith, more) in e ∙ two_rounds fuel params body n l f

serve-wrapped :
    (params body rest : Bytes)
    → length params < 65536
    → length body ≡ 65536
    → serve (opening params (send_frame stdin_type 1 body ++ rest)) ≡ built (parse_params params) []
serve-wrapped params body rest h n =
    let (fuel, more, e) = serve-opening params (send_frame stdin_type 1 body ++ rest) h in
    e ∙ one_round fuel more
  where
    one_round :
        (fuel : ℕ)
        → length (send_frame stdin_type 1 body ++ rest) < fuel
        → serve_loop fuel (send_frame stdin_type 1 body ++ rest) (parse_params params) []
          ≡ built (parse_params params) []
    one_round zero m = absurd (omega arith)
    one_round (suc fuel) m = serve_loop-wrapped fuel rest (parse_params params) [] body n

spool_done : (fuel : ℕ) (file : Bytes) → spool_loop fuel 0 file ≡ some []
unfolding spool_loop
spool_done zero file = refl
spool_done (suc fuel) file = refl

-- A body of at most 65536 bytes goes out as one record, from memory or from a file.
one_piece :
    (upload : Upload) (body : Bytes)
    → (upload ≡ in_memory body) ⊎ (upload ≡ spooled body)
    → length body ≢ 0
    → length body ≤ 65536
    → put_stdin (length body) upload ≡ some (send_frame stdin_type 1 body)
unfolding put_stdin spool_loop
one_piece upload body (inl e) n h =
    let z : ltb 0 (length body) ≡ true = ground arith in
    rw (e, put_stdin, z, if◌then◌else◌, take_all (length body) body (omega arith)) refl
one_piece upload body (inr e) n h =
    let z : (length body == 0) ≡ false = ground arith in
    let m : min (length body) 65536 ≡ length body = omega arith in
    let k : length body - length body ≡ 0 = omega arith in
    rw
      (
        e,
        put_stdin,
        spool_loop,
        m,
        take_all (length body) body (omega arith),
        z,
        if◌then◌else◌,
        k,
        spool_done (length body) (drop (length body) body),
      )
      (ap some (append-nil (send_frame stdin_type 1 body)))

module _ (r : HttpRequest) (remote_addr : Option Bytes) (upload : Upload) (body : Bytes) where
  -- What is sent, where the parameters fit.
  forwarded :
      (params : Bytes)
      → put_params [] (cgi_params r remote_addr) ≡ some params
      → put_stdin r.content_length upload ≡ some (send_frame stdin_type 1 body)
      → forward_to_fcgi r remote_addr upload
        ≡ some (opening params (send_frame stdin_type 1 body ++ send_frame stdin_type 1 []))
  unfolding forward_to_fcgi
  forwarded params e f = rw (forward_to_fcgi, e, f) refl

  refused :
      put_params [] (cgi_params r remote_addr) ≡ none → forward_to_fcgi r remote_addr upload ≡ none
  unfolding forward_to_fcgi
  refused e = rw (forward_to_fcgi, e) refl

  -- Where the texts have no NUL and the Content-Length is the length of the body, of 1 to 65535 bytes in
  -- memory or in a file: either the parameters do not fit their buffer and nothing is forwarded, or the
  -- server that reads what is forwarded has the parameters with a value, in order, and the body.
  pub serve-forward_to_fcgi :
      All IsPlain (cgi_params r remote_addr)
      → r.content_length ≡ length body
      → (upload ≡ in_memory body) ⊎ (upload ≡ spooled body)
      → length body ≢ 0
      → length body < 65536
      → ((put_params [] (cgi_params r remote_addr) ≡ none)
          × (forward_to_fcgi r remote_addr upload ≡ none))
        ⊎ ((w : Bytes) × (forward_to_fcgi r remote_addr upload ≡ some w)
            × (serve w ≡ built (sent (cgi_params r remote_addr)) body))
  serve-forward_to_fcgi h c u n l = elim (Option-cases (put_params [] (cgi_params r remote_addr))) [
    | inl e ↦ inl (e, refused e)
    | inr (params, e) ↦
        let f = ap (λ k. put_stdin k upload) c ∙ one_piece upload body u n (omega (arith, l)) in
        let small = put_params-fits (cgi_params r remote_addr) [] params (omega arith) e in
        let q = parse_params-put_params (cgi_params r remote_addr) params h e in
        inr (
          _,
          forwarded params e f,
          serve-one_record params body (omega (arith, small)) n l ∙ ap (λ ps. built ps body) q,
        )
  ]

  -- A body of 65536 bytes, which the limits allow, is forwarded as a record whose length field is 0, and
  -- the server that reads it has no body.
  pub serve-forward_to_fcgi_wrapped :
      All IsPlain (cgi_params r remote_addr)
      → r.content_length ≡ length body
      → (upload ≡ in_memory body) ⊎ (upload ≡ spooled body)
      → length body ≡ 65536
      → ((put_params [] (cgi_params r remote_addr) ≡ none)
          × (forward_to_fcgi r remote_addr upload ≡ none))
        ⊎ ((w : Bytes) × (forward_to_fcgi r remote_addr upload ≡ some w)
            × (serve w ≡ built (sent (cgi_params r remote_addr)) []))
  serve-forward_to_fcgi_wrapped h c u n =
      elim (Option-cases (put_params [] (cgi_params r remote_addr))) [
        | inl e ↦ inl (e, refused e)
        | inr (params, e) ↦
            let f =
              ap (λ k. put_stdin k upload) c
              ∙ one_piece upload body u (λ z. absurd (omega arith)) (omega arith) in
            let small = put_params-fits (cgi_params r remote_addr) [] params (omega arith) e in
            let q = parse_params-put_params (cgi_params r remote_addr) params h e in
            inr (
              _,
              forwarded params e f,
              serve-wrapped params body (send_frame stdin_type 1 []) (omega (arith, small)) n
                  ∙ ap (λ ps. built ps []) q,
            )
      ]
