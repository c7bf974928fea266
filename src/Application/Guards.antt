-- ===== src/Application/Guards.antt =====
-- When a request is answered with a file.
use httpuv.Base.{
  ℕ, ◌≡◌, refl, sym, ap, ◌∙◌, arith, Bool, true, false, ◌&&◌, ◌||◌, not, Bytes, bytes, bytes_eq,
  ◌==◌, if◌then◌else◌, Option, none, some, inl, inr, ◌⊎◌,
}
use httpuv.Uri.{do_decode_uri}
use httpuv.Static.Options.{ValidationError, validate_request_headers}
use httpuv.Static.Manager.{StaticPath, StaticPathManager}
use httpuv.Static.Match.{match_static_path}
use httpuv.Response.{new_response}
use httpuv.Application.{
  split_query_string, Request, has_header, Answer, fall_through, respond, thrown, undefined,
  no_fuel, has_dots, deref, Environment, error_response, has_message_body, checked, serve_match,
  static_file_response,
}

-- An answer that may carry a file: a response with a status that no error has.
unfoldable pub is_served : {F : Type 0} → Answer F → Bool
is_served fall_through = false
is_served (respond p) = (p.status_code == 200) || (p.status_code == 304)
is_served (thrown e) = false
is_served undefined = false
is_served no_fuel = false

module _ {F : Type 0} (env : Environment F) where
  -- The conditions on a request that the code checks before it looks for the file.
  abbrev pub IsAllowed : StaticPathManager → Request → Type 0
  IsAllowed m r =
      (sp : StaticPath) × (subpath : Bytes) × (match_static_path m
          (do_decode_uri (split_query_string r.url).0 true)
        ≡ some (some (sp, subpath)))
      × (has_header r (bytes "Upgrade") ≡ false)
      × (sp.options.exclude ≡ some false)
      × (validate_request_headers sp.options r.headers ≡ inr true)
      × ((bytes_eq r.method (bytes "GET") || bytes_eq r.method (bytes "HEAD")) ≡ true)
      × (has_message_body r ≡ false)
      × (has_dots (do_decode_uri (split_query_string r.url).0 true) ≡ false)

  -- What holds when the match of a path is answered with a file.
  abbrev IsAllowedAt : Request → Bytes → StaticPath → Type 0
  IsAllowedAt r url_path sp =
      (sp.options.exclude ≡ some false)
      × (validate_request_headers sp.options r.headers ≡ inr true)
      × ((bytes_eq r.method (bytes "GET") || bytes_eq r.method (bytes "HEAD")) ≡ true)
      × (has_message_body r ≡ false)
      × (has_dots url_path ≡ false)

  error_unserved :
      (code : ℕ)
      → ((code == 200) || (code == 304)) ≡ false
      → is_served (respond (error_response env code)) ≡ false
  unfolding is_served error_response new_response
  error_unserved code e = e

  dots_unserved :
      (o : Option Bool)
      → is_served (deref o (λ f. if f then fall_through else respond (error_response env 400)))
        ≡ false
  unfolding is_served deref error_response new_response
  dots_unserved none = refl
  dots_unserved (some true) = refl
  dots_unserved (some false) = refl

  deref-served :
      {A : Type 0} (o : Option A) (k : A → Answer F)
      → is_served (deref o k) ≡ true
      → (a : A) × (o ≡ some a) × (is_served (k a) ≡ true)
  unfolding deref is_served
  deref-served none k e = absurd (ground (arith, e))
  deref-served (some a) k e = (a, refl, e)

  if-served :
      (b : Bool) (x y : Answer F)
      → is_served x ≡ false
      → is_served (if b then x else y) ≡ true
      → (b ≡ false) × (is_served y ≡ true)
  if-served true x y f e = absurd (ground (arith, e, f))
  if-served false x y f e = (refl, e)

  valid-served :
      (v : ValidationError ⊎ Bool) (a : Answer F)
      → is_served (elim v [
        | inl error ↦ thrown error
        | inr false ↦ respond (error_response env 403)
        | inr true ↦ a
      ])
        ≡ true
      → (v ≡ inr true) × (is_served a ≡ true)
  unfolding is_served
  valid-served (inl error) a e = absurd (ground (arith, e))
  valid-served (inr false) a e = absurd (ground (arith, e, error_unserved 403 refl))
  valid-served (inr true) a e = (refl, e)

  allowed_method : (a b : Bool) → (not a && not b) ≡ false → (a || b) ≡ true
  allowed_method true b e = refl
  allowed_method false true e = refl
  allowed_method false false e = sym e

  serve_match-IsAllowedAt :
      (r : Request) (url_path : Bytes) (sp : StaticPath) (subpath : Bytes)
      → is_served (serve_match env r url_path sp subpath) ≡ true
      → IsAllowedAt r url_path sp
  unfolding serve_match checked is_served
  serve_match-IsAllowedAt r url_path sp subpath e =
      let (exclude, is_set, e) = deref-served sp.options.exclude _ e in
      let (included, e) = if-served exclude fall_through _ refl e in
      let (valid, e) = valid-served (validate_request_headers sp.options r.headers) _ e in
      let other_method =
        not (bytes_eq r.method (bytes "GET")) && not (bytes_eq r.method (bytes "HEAD")) in
      let (method, e) =
        if-served other_method (respond (error_response env 400)) _ (error_unserved 400 refl) e in
      let (no_body, e) =
        if-served (has_message_body r) (respond (error_response env 400)) _
          (error_unserved 400 refl) e in
      let (no_dots, e) =
        if-served (has_dots url_path) _ _ (dots_unserved sp.options.fallthrough) e in
      (is_set ∙ ap some included, valid, allowed_method _ _ method, no_body, no_dots)

  match-served :
      (r : Request) (url_path : Bytes) (o : Option (Option (StaticPath × Bytes)))
      → is_served (elim o [
        | none ↦ no_fuel
        | some none ↦ fall_through
        | some (some (sp, subpath)) ↦ serve_match env r url_path sp subpath
      ])
        ≡ true
      → (sp : StaticPath) × (subpath : Bytes) × (o ≡ some (some (sp, subpath)))
        × (is_served (serve_match env r url_path sp subpath) ≡ true)
  unfolding is_served
  match-served r url_path none e = absurd (ground (arith, e))
  match-served r url_path (some none) e = absurd (ground (arith, e))
  match-served r url_path (some (some (sp, subpath))) e = (sp, subpath, refl, e)

  -- A request that is answered with the status 200 or 304.
  pub static_file_response-IsAllowed :
      (m : StaticPathManager) (r : Request)
      → is_served (static_file_response env m r) ≡ true
      → IsAllowed m r
  unfolding static_file_response is_served
  static_file_response-IsAllowed m r e =
      let (no_upgrade, e) = if-served (has_header r (bytes "Upgrade")) fall_through _ refl e in
      let url_path = do_decode_uri (split_query_string r.url).0 true in
      let (sp, subpath, found, e) = match-served r url_path (match_static_path m url_path) e in
      let (included, valid, method, no_body, no_dots) =
        serve_match-IsAllowedAt r url_path sp subpath e in
      (sp, subpath, found, no_upgrade, included, valid, method, no_body, no_dots)
