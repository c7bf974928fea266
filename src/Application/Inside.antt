-- ===== src/Application/Inside.antt =====
-- A request reaches only paths below those of the static paths.
use httpuv.Base.{
  ℕ, ◌≡◌, refl, sym, ap, ◌∙◌, arith, Bool, true, false, ◌&&◌, not, List, [], ◌∷◌, ◌++◌,
  append_assoc, Bytes, bytes, bytes_eq, if◌then◌else◌, Option, none, some, some-injective,
  Bool-cases, inl, inr, ◌⊎◌,
}
use httpuv.Uri.{do_decode_uri}
use httpuv.Files.{
  Stat, FileAction, FileDataSource, FileDataSourceResult, c_str, is_directory, initialize,
  get_mtime,
}
use httpuv.Static.Options.{StaticPathOptions, ValidationError, validate_request_headers}
use httpuv.Static.Manager.{StaticPath, StaticPathManager, get}
use httpuv.Static.Match.{contains, strip_slash, match_static_path}
use httpuv.Static.Longest.{IsMatch, mount, match_static_path-IsMatch}
use httpuv.Response.{has_word, starts}
use httpuv.Application.{
  Request, has_dots, deref, Answer, fall_through, respond, thrown, no_fuel, has_header,
  split_query_string, Environment, error_response, file_response, cache_is_valid, content_type_of,
  base_path, with_index, opened, open_path, has_message_body, checked, serve_match,
  static_file_response,
}
use httpuv.Application.Paths.{
  NoDots, has_word-behind, strip_slash-dots, contains-behind, strip_slash-contains,
}

-- A path that a static path allows, as the system calls read it: its own, or one below it without
-- ".." as a segment and without a byte 0; or the file "index.html" in one of these.
unfoldable pub IsInside : StaticPathManager → Bytes → Type 0
IsInside m path =
    (q subpath : Bytes) × (sp : StaticPath) × (get m q ≡ some sp)
    × NoDots subpath
    × (contains 0 subpath ≡ false)
    × ((path ≡ c_str (base_path sp subpath))
        ⊎ (path ≡ c_str (base_path sp subpath ++ bytes "/index.html")))

NoDots-IsMatch :
    (m : StaticPathManager) (path : Bytes) (sp : StaticPath) (subpath : Bytes)
    → has_word (bytes "/../") (path ++ b'/' ∷ []) ≡ false
    → contains 0 path ≡ false
    → IsMatch m path (some (sp, subpath))
    → (q : Bytes) × (get m q ≡ some sp) × NoDots subpath × (contains 0 subpath ≡ false)
unfolding IsMatch NoDots has_word starts contains
NoDots-IsMatch m path sp subpath e z (inl (found, empty)) = (path, found, rw empty, rw empty refl)
NoDots-IsMatch m path sp subpath e z (inr (absent, q, cut, found, _)) = (
  mount q,
  found,
  has_word-behind (bytes "/../") q (b'/' ∷ (subpath ++ b'/' ∷ [])) (
      sym (ap (has_word (bytes "/../")) (append_assoc q (b'/' ∷ subpath) (b'/' ∷ [])))
      ∙ (rw cut at e)),
  contains-behind 0 (q ++ b'/' ∷ []) subpath
      (ap (contains 0) (append_assoc q (b'/' ∷ []) subpath) ∙ (rw cut at z)),
)

NoDots-match :
    (m : StaticPathManager) (url_path : Bytes) (sp : StaticPath) (subpath : Bytes)
    → has_dots url_path ≡ false
    → contains 0 url_path ≡ false
    → match_static_path m url_path ≡ some (some (sp, subpath))
    → (q : Bytes) × (get m q ≡ some sp) × NoDots subpath × (contains 0 subpath ≡ false)
NoDots-match m url_path sp subpath e z found =
    let (r, comes, cases) = match_static_path-IsMatch m url_path in
    let same : r ≡ some (sp, subpath) = some-injective _ _ (sym comes ∙ found) in
    elim cases [
      | inl (_, nothing) ↦ absurd (ground (arith, nothing, same))
      | inr (_, _, is) ↦
          NoDots-IsMatch m (strip_slash url_path) sp subpath (strip_slash-dots url_path e)
            (strip_slash-contains 0 url_path z) (rw same at is)
    ]

module _ {F : Type 0} (env : Environment F) (m : StaticPathManager) (stat' : Bytes → Option Stat)
    (open' : Bytes → ℕ ⊎ F) where
  -- The same environment with other answers to `stat` and `open`.
  abbrev pub elsewhere : Environment F
  elsewhere = record env { files = record env.files { stat = stat'; open_file = open' } }

  initialize-elsewhere :
      (path : Bytes)
      → open' (c_str path) ≡ env.files.open_file (c_str path)
      → initialize elsewhere.files path false ≡ initialize env.files path false
  unfolding initialize
  initialize-elsewhere path e = rw (e, initialize)

  opened-elsewhere :
      (options : StaticPathOptions) (r : Request) (path : Bytes)
      (x : FileDataSourceResult × FileDataSource F × List (FileAction F))
      → opened elsewhere options r path x ≡ opened env options r path x
  unfolding opened error_response file_response cache_is_valid content_type_of get_mtime
  opened-elsewhere options r path (ret, source, log) = refl

  open_path-elsewhere :
      (options : StaticPathOptions) (r : Request) (path : Bytes)
      → open' (c_str path) ≡ env.files.open_file (c_str path)
      → open_path elsewhere options r path ≡ open_path env options r path
  unfolding open_path
  open_path-elsewhere options r path e =
      opened-elsewhere options r path (initialize elsewhere.files path false)
      ∙ ap (opened env options r path) (initialize-elsewhere path e)

  deref-cong :
      {A : Type 0} (o : Option A) (k l : A → Answer F)
      → ((a : A) → k a ≡ l a)
      → deref o k ≡ deref o l
  unfolding deref
  deref-cong none k l h = refl
  deref-cong (some a) k l h = h a

  if-cong : (b : Bool) (x y z : Answer F) → y ≡ z → (if b then x else y) ≡ (if b then x else z)
  if-cong true x y z e = refl
  if-cong false x y z e = e

  valid-cong :
      (v : ValidationError ⊎ Bool) (a b : Answer F)
      → a ≡ b
      → (elim v [
        | inl error ↦ thrown error
        | inr false ↦ respond (error_response env 403)
        | inr true ↦ a
      ])
        ≡ (elim v [
          | inl error ↦ thrown error
          | inr false ↦ respond (error_response env 403)
          | inr true ↦ b
        ])
  valid-cong (inl error) a b e = refl
  valid-cong (inr false) a b e = refl
  valid-cong (inr true) a b e = e

  choice :
      (b : Bool) (s t : Bytes) (k l : Bytes → Answer F)
      → k s ≡ l s
      → k t ≡ l t
      → k (if b then s else t) ≡ l (if b then s else t)
  choice true s t k l e f = e
  choice false s t k l e f = f

  with_index-elsewhere :
      (options : StaticPathOptions) (path : Bytes) (k l : Bytes → Answer F)
      → stat' (c_str path) ≡ env.files.stat (c_str path)
      → k path ≡ l path
      → k (path ++ bytes "/index.html") ≡ l (path ++ bytes "/index.html")
      → with_index elsewhere options path k ≡ with_index env options path l
  unfolding with_index
  with_index-elsewhere options path k l e f g =
      let same : is_directory elsewhere.files path ≡ is_directory env.files path =
        unfold is_directory in rw (e, is_directory) in
      elim (Bool-cases (is_directory env.files path)) [
        | inr file ↦ rw (same, file) f
        | inl dir ↦
            rw (same, dir)
              (deref-cong options.indexhtml _ _
                (λ b. choice b (path ++ bytes "/index.html") path k l g f))
      ]

  checked-elsewhere :
      (r : Request) (url_path : Bytes) (sp : StaticPath) (file : Answer F)
      → checked elsewhere r url_path sp file ≡ checked env r url_path sp file
  unfolding checked error_response
  checked-elsewhere r url_path sp file = refl

  checked-dots :
      (r : Request) (url_path : Bytes) (sp : StaticPath) (file other : Answer F)
      → has_dots url_path ≡ true
      → checked env r url_path sp file ≡ checked env r url_path sp other
  unfolding checked
  checked-dots r url_path sp file other e =
      let bad = respond (error_response env 400) in
      let refused = deref sp.options.fallthrough (λ f. if f then fall_through else bad) in
      let last : (if has_dots url_path then refused else file)
          ≡ (if has_dots url_path then refused else other) =
        rw e in
      deref-cong sp.options.exclude _ _ (λ exclude. if-cong exclude fall_through _ _ (
        valid-cong (validate_request_headers sp.options r.headers) _ _ (
          if-cong (not (bytes_eq r.method (bytes "GET")) && not (bytes_eq r.method (bytes "HEAD")))
            bad _ _ (if-cong (has_message_body r) bad _ _ last))))

  serve_match-elsewhere :
      (r : Request) (url_path : Bytes) (sp : StaticPath) (subpath : Bytes)
      → ((path : Bytes)
          → IsInside m path
          → (stat' path ≡ env.files.stat path) × (open' path ≡ env.files.open_file path))
      → contains 0 url_path ≡ false
      → match_static_path m url_path ≡ some (some (sp, subpath))
      → serve_match elsewhere r url_path sp subpath ≡ serve_match env r url_path sp subpath
  unfolding serve_match IsInside
  serve_match-elsewhere r url_path sp subpath same z found = elim (Bool-cases (has_dots url_path)) [
    | inl dots ↦ checked-elsewhere r url_path sp _ ∙ checked-dots r url_path sp _ _ dots
    | inr no_dots ↦
        let (q, got, clean, whole) = NoDots-match m url_path sp subpath no_dots z found in
        let base = base_path sp subpath in
        let at_base = same (c_str base) (q, subpath, sp, got, clean, whole, inl refl) in
        let at_index =
          same (c_str (base ++ bytes "/index.html"))
            (q, subpath, sp, got, clean, whole, inr refl) in
        checked-elsewhere r url_path sp _
        ∙ ap (checked env r url_path sp) (
            with_index-elsewhere sp.options base (open_path elsewhere sp.options r)
              (open_path env sp.options r) at_base.0
              (open_path-elsewhere sp.options r base at_base.1)
              (open_path-elsewhere sp.options r (base ++ bytes "/index.html") at_index.1))
  ]

  match-cong :
      (o : Option (Option (StaticPath × Bytes))) (k l : StaticPath → Bytes → Answer F)
      → ((sp : StaticPath) (subpath : Bytes)
          → o ≡ some (some (sp, subpath))
          → k sp subpath ≡ l sp subpath)
      → (elim o [
        | none ↦ no_fuel
        | some none ↦ fall_through
        | some (some (sp, subpath)) ↦ k sp subpath
      ])
        ≡ (elim o [
          | none ↦ no_fuel
          | some none ↦ fall_through
          | some (some (sp, subpath)) ↦ l sp subpath
        ])
  match-cong none k l h = refl
  match-cong (some none) k l h = refl
  match-cong (some (some (sp, subpath))) k l h = h sp subpath refl

  -- For a request whose decoded path has no byte 0: whatever `stat` and `open` say of other paths, the
  -- answer is the same; it reaches only the paths of the static paths, those below them without
  -- ".." as a segment, and the file "index.html" in these.
  pub static_file_response-elsewhere :
      (r : Request)
      → contains 0 (do_decode_uri (split_query_string r.url).0 true) ≡ false
      → ((path : Bytes)
          → IsInside m path
          → (stat' path ≡ env.files.stat path) × (open' path ≡ env.files.open_file path))
      → static_file_response elsewhere m r ≡ static_file_response env m r
  unfolding static_file_response
  static_file_response-elsewhere r z same =
      let url_path = do_decode_uri (split_query_string r.url).0 true in
      if-cong (has_header r (bytes "Upgrade")) fall_through _ _ (
        match-cong (match_static_path m url_path) (serve_match elsewhere r url_path)
          (serve_match env r url_path)
          (λ sp subpath found. serve_match-elsewhere r url_path sp subpath same z found))
