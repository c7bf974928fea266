-- ===== src/Static/Manager.antt =====
-- StaticPath and StaticPathManager (src/staticpath.h, src/staticpath.cpp). The mutex guards each
-- call of `get`, `set` and `remove`; it is no part of the model.
use httpuv.Base.{List, [], ◌∷◌, Bytes, bytes_eq, Option, none, some, find, insert, assign, erase}
use httpuv.Static.Options.{StaticPathOptions, merge, set_options}

pub record StaticPath : Type 0 where
  pub path : Bytes
  pub options : StaticPathOptions

pub record StaticPathManager : Type 0 where
  pub path_map : List (Bytes × StaticPath)
  pub options : StaticPathOptions

unfoldable pub get : StaticPathManager → Bytes → Option StaticPath
unfolding merge
get m path = elim (find bytes_eq path m.path_map) [
  | none ↦ none
  | some sp ↦ some (record sp { options = merge sp.options m.options })
]

unfoldable pub set : StaticPathManager → Bytes → StaticPath → StaticPathManager
set m path sp =
    let replaced : List (Bytes × StaticPath) = elim (find bytes_eq path m.path_map) [
      | none ↦ m.path_map
      | some old ↦ assign bytes_eq path sp m.path_map
    ] in
    record m { path_map = insert bytes_eq path sp replaced }

unfoldable pub set_all : StaticPathManager → List (Bytes × StaticPath) → StaticPathManager
set_all m [] = m
set_all m ((path, sp) ∷ pmap) = set_all (set m path sp) pmap

-- `erase` of the one entry that `find` returned.
unfoldable pub remove : StaticPathManager → Bytes → StaticPathManager
remove m path = elim (find bytes_eq path m.path_map) [
  | none ↦ m
  | some old ↦ record m { path_map = erase bytes_eq path m.path_map }
]

unfoldable pub remove_all : StaticPathManager → List Bytes → StaticPathManager
remove_all m [] = m
remove_all m (path ∷ paths) = remove_all (remove m path) paths

unfoldable pub set_manager_options : StaticPathManager → StaticPathOptions → StaticPathManager
unfolding set_options
set_manager_options m opts = record m { options = set_options m.options opts }
