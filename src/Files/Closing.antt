-- ===== src/Files/Closing.antt =====
-- How often a FileDataSource closes its file.
use httpuv.Base.{
  ℕ, zero, suc, ◌+◌, ◌≡◌, refl, arith, Bool, List, [], ◌∷◌, ◌++◌, Bytes, ◌==◌, none, inl, inr,
  Sum-cases, Bool-cases, Option-cases,
}
use httpuv.Files.{
  FileSystem, FileAction, close_fd, unlink, FileDataSourceResult, fds_ok, fds_not_exist, fds_isdir,
  fds_error, FileDataSource, c_str, initialize, close_file,
}

unfoldable pub closings : {F : Type 0} → List (FileAction F) → ℕ
closings [] = 0
closings (close_fd f ∷ log) = suc (closings log)
closings (unlink path ∷ log) = closings log

closings-append :
    {F : Type 0} (s t : List (FileAction F)) → closings (s ++ t) ≡ closings s + closings t
unfolding closings
closings-append [] t = omega arith
closings-append (close_fd f ∷ s) t = omega (arith, closings-append s t)
closings-append (unlink path ∷ s) t = closings-append s t

module _ {F : Type 0} (fs : FileSystem F) where
  -- The life of a source: `initialize`, and then `close`, by the code or by the destructor, any
  -- number of times.
  unfoldable pub close_again : ℕ → FileDataSource F → List (FileAction F)
  close_again zero s = []
  close_again (suc n) s = let (t, log) = close_file fs s in log ++ close_again n t

  unfoldable pub life : Bytes → Bool → ℕ → List (FileAction F)
  unfolding close_again
  life path owned n = let (r, s, log) = initialize fs path owned in log ++ close_again n s

  -- The closings after an error: two if the file could be opened.
  unfoldable pub after_error : Bytes → ℕ
  after_error path = elim (fs.open_file (c_str path)) [ inl errno ↦ 0 | inr f ↦ 2 ]

  closed_for_good : (n : ℕ) (s : FileDataSource F) → s.fd ≡ none → closings (close_again n s) ≡ 0
  unfolding closings close_again close_file
  closed_for_good zero s e = refl
  closed_for_good (suc n) s e = rw (e, close_file) (closed_for_good n s e)

  -- The closings for each result.
  unfoldable pub expected : Bytes → FileDataSourceResult → ℕ
  unfolding after_error
  expected path fds_ok = 1
  expected path fds_not_exist = 0
  expected path fds_isdir = 2
  expected path fds_error = after_error path

  -- What `initialize` gives, with the number of closings after one more `close`.
  initialize-close :
      (path : Bytes) (owned : Bool)
      → let (r, s, log) = initialize fs path owned in
        let (t, more) = close_file fs s in
        (t.fd ≡ none) × (closings log + closings more ≡ expected path r)
  unfolding initialize close_file closings expected after_error
  initialize-close path owned = elim (Sum-cases (fs.open_file (c_str path))) [
    | inl (errno, e) ↦ elim (Bool-cases (errno == fs.enoent)) [
      | inl missing ↦ rw (e, missing, initialize) (refl, refl)
      | inr other ↦ rw (e, other, initialize, e, after_error) (refl, refl)
    ]
    | inr (f, e) ↦ elim (Option-cases (fs.fstat f)) [
      | inl failed ↦ rw (e, failed, initialize, e, after_error) (refl, refl)
      | inr (info, known) ↦ elim (Bool-cases info.is_dir) [
        | inl dir ↦ rw (e, known, dir, initialize) (refl, refl)
        | inr file ↦ elim (Bool-cases owned) [
          | inl own ↦ rw (e, known, file, own, initialize) (refl, refl)
          | inr kept ↦ rw (e, known, file, kept, initialize) (refl, refl)
        ]
      ]
    ]
  ]

  -- After `initialize` and one or more calls of `close`, a file that was not there or could not be
  -- opened was not closed; one with the result FDS_OK was closed once; any other, a directory or
  -- one that `fstat` failed on, was closed twice, by `initialize` and again by `close`.
  pub closings-life :
      (path : Bytes) (owned : Bool) (n : ℕ)
      → closings (life path owned (suc n)) ≡ expected path (initialize fs path owned).0
  unfolding life
  closings-life path owned n =
      let (r, s, log) = initialize fs path owned in
      let (t, more) = close_file fs s in
      let (gone, sum) = initialize-close path owned in
      rw (closings-append, closings-append) (omega (arith, sum, closed_for_good n t gone))
