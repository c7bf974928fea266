-- ===== src/Response/Written.antt =====
-- What `writeResponse` puts on the stream, as a client reads it.
use httpuv.Base.{
  ℕ, ◌+◌, ◌≤◌, ◌≡◌, refl, ap, sym, ◌∙◌, arith, Bool, true, false, ◌||◌, ◌&&◌, List, [], ◌∷◌, ◌++◌,
  append_assoc, append-nil, Bytes, bytes, decimal, ltb, ◌==◌, length, Option, none, some, ◌>>=◌,
  bind-some, some-injective, Bool-cases, Option-cases, inl, inr, All, All-append,
}
use httpuv.Headers.{ResponseHeaders, RequestHeaders}
use httpuv.Output.{DataSource, crlf}
use httpuv.Static.Match.{contains}
use httpuv.Files.Names.{contains-append}
use httpuv.Response.{
  HttpResponse, erase_all, header_loop, use_gzip, status_line, head_of, zip_body, send_along,
  switched_body, ResponseAction, write_response,
}
use httpuv.Response.Client.{
  read_line, read_fields, IsField, render, read_line-append, read_fields-render,
}
use httpuv.Response.Head.{
  content_length_name, lengths, last_length, header_loop-render, lengths-erase_all, lengths-append,
  erase_all-IsField, last_length-IsField, contains-decimal, framing_fields, zip_fields, added,
  head_of-render, framing_fields-IsField, zip_fields-IsField, lengths-framing_fields,
  lengths-zip_fields,
}

-- The status line, the fields, and the bytes behind the head; the fuel is for the lines.
pub read_head : ℕ → Bytes → Option (Bytes × ResponseHeaders × Bytes)
read_head fuel s = read_line s >>= λ r. read_fields fuel r.1 >>= λ f. some (r.0, f.0, f.1)

pub status_text : ℕ → Bytes → Bytes
status_text status_code status = bytes "HTTP/1.1 " ++ (decimal status_code ++ (bytes " " ++ status))

module _ {B : Type 0} (d : DataSource B) where
  status_text-line :
      (code : ℕ) (status t : Bytes)
      → contains 13 status ≡ false
      → read_line (status_line d code status ++ t) ≡ some (status_text code status, t)
  unfolding status_line status_text
  status_text-line code status t e =
      let digits = decimal code in
      let shape : status_line d code status ++ t ≡ status_text code status ++ 13 ∷ 10 ∷ t =
        ap (λ r. bytes "HTTP/1.1 " ++ r)
          (append_assoc digits (b' ' ∷ (status ++ crlf)) t
            ∙ ap (λ r. digits ++ (b' ' ∷ r)) (append_assoc status crlf t)
            ∙ sym (append_assoc digits (b' ' ∷ status) (13 ∷ 10 ∷ t))) in
      let no_return : contains 13 (b' ' ∷ status) ≡ false = unfold contains in e in
      rw shape (
        read_line-append (status_text code status) t (
          contains-append 13 (bytes "HTTP/1.1 ") (digits ++ (b' ' ∷ status))
            (unfold contains in refl)
            (contains-append 13 digits (b' ' ∷ status) (contains-decimal code) no_return)))

  read_head-head_of :
      (p : HttpResponse B) (fields : ResponseHeaders) (l : Bytes) (zipped : Bool) (rest : Bytes)
      → contains 13 p.status ≡ false
      → All IsField fields
      → contains 13 l ≡ false
      → read_head
          (length (fields ++ added d p l zipped) + 1)
          (head_of d p (render fields) l zipped ++ rest)
        ≡ some (status_text p.status_code p.status, fields ++ added d p l zipped, rest)
  unfolding read_head
  read_head-head_of p fields l zipped rest s h e =
      let all = fields ++ added d p l zipped in
      let good = All-append IsField fields (added d p l zipped) h (
        All-append IsField (zip_fields d zipped) _ (zip_fields-IsField d zipped)
          (framing_fields-IsField d (p.status_code == 101) p.chunked (length l == 0) l p.body e)) in
      let shape : head_of d p (render fields) l zipped ++ rest
          ≡ status_line d p.status_code p.status ++ (render all ++ (crlf ++ rest)) =
        ap (λ r. r ++ rest) (head_of-render d p fields l zipped)
        ∙ append_assoc (status_line d p.status_code p.status) (render all ++ crlf) rest
        ∙ ap (λ r. status_line d p.status_code p.status ++ r)
            (append_assoc (render all) crlf rest) in
      rw (
        shape,
        status_text-line p.status_code p.status (render all ++ (crlf ++ rest)) s,
        read_fields-render 0 all rest good,
      )

  -- What is behind the head: only what is sent when the protocol is switched.
  abbrev IsBehind : HttpResponse B → Bytes → HttpResponse B → Type 0
  IsBehind p head q =
      (rest : Bytes) × (q.response_header ≡ head ++ rest)
      × (q.chunked ≡ p.chunked)
      × ((p.status_code == 101) ≡ false → rest ≡ [])

  nothing-IsBehind :
      (p q : HttpResponse B) (head : Bytes)
      → record p { response_header = head } ≡ q
      → IsBehind p head q
  nothing-IsBehind p q head e = (
    [],
    sym (ap (λ r. r.response_header) e) ∙ sym (append-nil head),
    sym (ap (λ r. r.chunked) e),
    λ _. refl,
  )

  send_along-IsBehind :
      (p q : HttpResponse B) (head : Bytes) (b : B)
      → send_along d p head b ≡ some q
      → IsBehind p head q
  unfolding send_along
  send_along-IsBehind p q head b e =
      elim (Bool-cases ((p.status_code == 101) && ltb 0 (d.size b) && ltb (d.size b) 256)) [
        | inr apart ↦ nothing-IsBehind p q head (some-injective _ _ (rw (apart, send_along) at e))
        | inl along ↦ elim (Option-cases (d.get_data (d.size b) b)) [
          | inl failed ↦ absurd (ground (arith, (rw (along, failed, send_along) at e)))
          | inr ((buffer, c), got) ↦
              let same = some-injective _ _ (rw (along, got, send_along) at e) in
              (
                buffer,
                sym (ap (λ r. r.response_header) same),
                sym (ap (λ r. r.chunked) same),
                λ h. absurd (ground (arith, along, h)),
              )
        ]
      ]

  switched_body-IsBehind :
      (p q : HttpResponse B) (head : Bytes) → switched_body d p head ≡ some q → IsBehind p head q
  unfolding switched_body
  switched_body-IsBehind p q head e = by_body p.body e
    where
      by_body :
          (o : Option B)
          → (elim o [
            | none ↦ some (record p { response_header = head })
            | some b ↦ send_along d p head b
          ])
            ≡ some q
          → IsBehind p head q
      by_body none e = nothing-IsBehind p q head (some-injective _ _ e)
      by_body (some b) e = send_along-IsBehind p q head b e

  -- Of a response with a status without a carriage return and with proper fields: what is written is,
  -- to a client, the status line, the fields but for Content-Length, fields that the code adds, and
  -- the bytes behind the head, which are none unless the protocol is switched. At most one field is
  -- named Content-Length, none if the body is chunked or the protocol switched.
  pub read_head-write_response :
      (gzip : B → Option B) (request : RequestHeaders) (failed : Bool) (p q : HttpResponse B)
      (actions : List (ResponseAction B))
      → contains 13 p.status ≡ false
      → All IsField p.headers
      → write_response d gzip request failed p ≡ some (q, actions)
      → (more : ResponseHeaders) × (rest : Bytes) × (let fields =
            erase_all content_length_name p.headers ++ more in
          (read_head (length fields + 1) q.response_header
            ≡ some (status_text p.status_code p.status, fields, rest))
          × (lengths fields ≤ 1)
          × ((p.status_code == 101) || q.chunked ≡ true → lengths fields ≡ 0)
          × ((p.status_code == 101) ≡ false → rest ≡ []))
  unfolding write_response
  read_head-write_response gzip request failed p q actions s h e =
      let loop = header_loop p.headers [] false in
      let fields = erase_all content_length_name p.headers in
      let l = last_length p.headers [] in
      let zipped = use_gzip request loop.2 p.status_code p.body in
      let (body, _, e) = bind-some (zip_body d gzip zipped p.body) _ (q, actions) e in
      let r = record p { body = body; chunked = p.chunked || zipped } in
      let (q', sent, e) =
        bind-some (switched_body d r (head_of d r loop.0 loop.1 zipped)) _ (q, actions) e in
      let same : q' ≡ q = ap (λ x. x.0) (some-injective _ _ e) in
      let (rest, head, chunks, alone) =
        switched_body-IsBehind r q' (head_of d r loop.0 loop.1 zipped) sent in
      let looped = header_loop-render p.headers [] false in
      let written : q'.response_header ≡ head_of d r (render fields) l zipped ++ rest =
        head ∙ ap (λ x. head_of d r x.0 x.1 zipped ++ rest) looped in
      let framed = framing_fields d (p.status_code == 101) r.chunked (length l == 0) l body in
      let count : lengths (fields ++ added d r l zipped) ≡ lengths framed = omega (
        arith,
        lengths-append fields (added d r l zipped),
        lengths-append (zip_fields d zipped) framed,
        lengths-erase_all p.headers,
        lengths-zip_fields d zipped,
      ) in
      let (few, none_named) =
        lengths-framing_fields d (p.status_code == 101) r.chunked (length l == 0) l body in
      (
        added d r l zipped,
        rest,
        (
          rw (← same, written)
              (read_head-head_of r fields l zipped rest s (erase_all-IsField p.headers h)
                (last_length-IsField p.headers [] h (unfold contains in refl))),
          omega (arith, count, few),
          λ either. count ∙ none_named (rw (← same, chunks) at either),
          alone,
        ),
      )
