-- ===== src/Tests/Files.antt =====
-- A file system of one directory with one file, and the theorems on files.
use httpuv.Base.{
  ℕ, ◌≡◌, ◌++◌, refl, true, false, ◌==◌, if◌then◌else◌, bytes, bytes_eq, none, some, inl, inr, pos,
}
use httpuv.Files.{FileSystem, initialize, find_extension, basename}
use httpuv.Files.Closing.{closings, life, expected, closings-life}
use httpuv.Files.Names.{find_extension-basename}
use httpuv.Static.Match.{contains}

-- "/www" is the open file 0, "/www/index.html" is the open file 1.
abbrev pub some_files : FileSystem ℕ
some_files = record {
  enoent = 2;
  open_file = λ path.
      if bytes_eq path (bytes "/www/index.html")
      then inr 1
      else if bytes_eq path (bytes "/www")
      then inr 0
      else inl 2;
  stat = λ path.
      if bytes_eq path (bytes "/www")
      then some (record { is_dir = true; st_size = 0; st_mtime = pos 784111777 })
      else none;
  fstat = λ f. some (record { is_dir = f == 0; st_size = 5; st_mtime = pos 784111777 });
  read_file = λ f n. none;
}

closings-life_example : closings (life some_files (bytes "/www") false 1) ≡ 2
unfolding expected initialize bytes_eq
closings-life_example = closings-life some_files (bytes "/www") false 0

find_extension-basename_example :
    (find_extension (basename (bytes "/www" ++ bytes "/a.tar.gz")) ≡ bytes "gz")
    × (find_extension (basename (bytes "/www" ++ bytes "/gz")) ≡ bytes "gz")
unfolding contains
find_extension-basename_example =
    find_extension-basename (bytes "/www") (bytes "a.tar") (bytes "gz") refl refl refl
