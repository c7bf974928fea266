-- ===== src/Files.antt =====
-- Files: src/fs.cpp, and FileDataSource for Unix (src/filedatasource.h, src/filedatasource-unix.cpp).
-- The system calls are arguments; those that close a file or remove one are entries of a log.
pub mod Closing
pub mod Names
use httpuv.Base.{
  ℕ, zero, suc, ◌+◌, ◌-◌, Bool, true, false, ◌&&◌, List, [], ◌∷◌, ◌++◌, Bytes, ltb, leb, ◌==◌,
  if◌then◌else◌, length, drop, Option, none, some, ◌⊎◌, inl, inr, ℤ, pos,
}
use httpuv.Output.{DataSource}

-- `s.find_last_of(c)`; `none` is `npos`.
unfoldable pub find_last : ℕ → Bytes → Option ℕ
find_last c [] = none
find_last c (d ∷ s) = elim (find_last c s) [
  | some i ↦ some (suc i)
  | none ↦ if c == d then some 0 else none
]

-- `found_idx <= 0` is `found_idx == 0`: for `npos`, the sum `found_idx + 1` is 0.
unfoldable pub find_extension : Bytes → Bytes
unfolding find_last
find_extension filename = elim (find_last b'.' filename) [
  | none ↦ filename
  | some found_idx ↦ if found_idx == 0 then [] else drop (found_idx + 1) filename
]

unfoldable pub basename : Bytes → Bytes
unfolding find_last
basename path = elim (find_last b'/' path) [
  | none ↦ path
  | some found_idx ↦ drop (found_idx + 1) path
]

-- `c_str`, as a system call reads it: up to the first byte 0.
unfoldable pub c_str : Bytes → Bytes
c_str [] = []
c_str (c ∷ s) = if c == 0 then [] else c ∷ c_str s

-- What `stat` and `fstat` fill in.
pub record Stat : Type 0 where
  pub is_dir : Bool
  pub st_size : ℕ
  pub st_mtime : ℤ

-- The system calls, over the open files. `open` gives an error's number or a file; `stat` and
-- `fstat` may fail, and so may `read`.
pub record FileSystem (F : Type 0) : Type 0 where
  pub enoent : ℕ
  pub open_file : Bytes → ℕ ⊎ F
  pub stat : Bytes → Option Stat
  pub fstat : F → Option Stat
  pub read_file : F → ℕ → Option (Bytes × F)

pub data FileAction (F : Type 0) : Type 0 where
  close_fd : F → FileAction F
  unlink : Bytes → FileAction F

pub data FileDataSourceResult : Type 0 where
  fds_ok fds_not_exist fds_isdir fds_error : FileDataSourceResult

-- `none` is a descriptor of -1.
pub record FileDataSource (F : Type 0) : Type 0 where
  pub fd : Option F
  pub file_length : ℕ

module _ {F : Type 0} (fs : FileSystem F) where
  unfoldable pub is_directory : Bytes → Bool
  unfolding c_str
  is_directory filename = elim (fs.stat (c_str filename)) [ none ↦ false | some sb ↦ sb.is_dir ]

  -- The length is undefined until a file was opened; it is 0 here.
  unfoldable pub initialize :
      Bytes → Bool → FileDataSourceResult × FileDataSource F × List (FileAction F)
  unfolding c_str
  initialize path owned = elim (fs.open_file (c_str path)) [
    | inl errno ↦ (
      if errno == fs.enoent then fds_not_exist else fds_error,
      record { fd = none; file_length = 0 },
      [],
    )
    | inr f ↦ elim (fs.fstat f) [
      | none ↦ (fds_error, record { fd = some f; file_length = 0 }, close_fd f ∷ [])
      | some info ↦
          if info.is_dir
          then (fds_isdir, record { fd = some f; file_length = 0 }, close_fd f ∷ [])
          else (
            fds_ok,
            record { fd = some f; file_length = info.st_size },
            if owned then unlink (c_str path) ∷ [] else [],
          )
    ]
  ]

  -- A descriptor of -1 cannot be read from.
  unfoldable pub get_file : ℕ → FileDataSource F → Option (Bytes × FileDataSource F)
  get_file bytes_desired s = if bytes_desired == 0 then some ([], s) else elim s.fd [
    | none ↦ none
    | some f ↦ elim (fs.read_file f bytes_desired) [
      | none ↦ none
      | some (data', g) ↦ some (data', record s { fd = some g })
    ]
  ]

  unfoldable pub get_mtime : FileDataSource F → ℤ
  get_mtime s = elim s.fd [
    | none ↦ pos 0
    | some f ↦ elim (fs.fstat f) [ none ↦ pos 0 | some res ↦ res.st_mtime ]
  ]

  unfoldable pub close_file : FileDataSource F → FileDataSource F × List (FileAction F)
  close_file s = elim s.fd [ none ↦ (s, []) | some f ↦ (record s { fd = none }, close_fd f ∷ []) ]

  abbrev pub file_source : DataSource (FileDataSource F)
  file_source = record {
    size = λ s. s.file_length;
    get_data = get_file;
    close = λ s. (close_file s).0;
  }
