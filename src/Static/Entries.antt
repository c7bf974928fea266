-- ===== src/Static/Entries.antt =====
-- The manager as a function from paths to static paths.
use httpuv.Base.{
  ◌≡◌, refl, ap, arith, Bool, true, false, Bytes, bytes_eq, bytes_eq_iff, Option-cases,
  if◌then◌else◌, Option, none, some, find, assign, find-assign, find-insert, insert_found, inl, inr,
  ◌∙◌,
}
use httpuv.Static.Options.{StaticPathOptions, merge, set_options}
use httpuv.Static.Manager.{StaticPath, StaticPathManager, get, set, set_manager_options}

-- A static path with the options of a manager behind its own.
abbrev pub merged : StaticPathManager → StaticPath → StaticPath
merged m sp = record sp { options = merge sp.options m.options }

bytes_eq_refl : (s : Bytes) → bytes_eq s s ≡ true
bytes_eq_refl s = (bytes_eq_iff s s).1 refl

find-set :
    (m : StaticPathManager) (path query : Bytes) (sp : StaticPath)
    → find bytes_eq query (set m path sp).path_map
      ≡ (if bytes_eq query path then some sp else find bytes_eq query m.path_map)
unfolding set
find-set m path query sp = elim (Option-cases (find bytes_eq path m.path_map)) [
  | inl absent ↦ rw absent (find-insert path query sp m.path_map absent)
  | inr (old, present) ↦
      let there : find bytes_eq path (assign bytes_eq path sp m.path_map) ≡ some sp =
        find-assign path path sp old m.path_map present ∙ rw (bytes_eq_refl path) in
      rw (present, insert_found path sp sp (assign bytes_eq path sp m.path_map) there)
        (find-assign path query sp old m.path_map present)
]

-- `get` on the entry that a map holds.
entry : StaticPathOptions → Option StaticPath → Option StaticPath
entry options none = none
entry options (some sp) = some (record sp { options = merge sp.options options })

get-entry :
    (m : StaticPathManager) (path : Bytes)
    → get m path ≡ entry m.options (find bytes_eq path m.path_map)
unfolding get entry
get-entry m path = elim (Option-cases (find bytes_eq path m.path_map)) [
  | inl absent ↦ rw (absent, get)
  | inr (sp, present) ↦ rw (present, get)
]

entry_if :
    (options : StaticPathOptions) (b : Bool) (o p : Option StaticPath)
    → entry options (if b then o else p) ≡ (if b then entry options o else entry options p)
entry_if options true o p = refl
entry_if options false o p = refl

set-options :
    (m : StaticPathManager) (path : Bytes) (sp : StaticPath) → (set m path sp).options ≡ m.options
unfolding set
set-options m path sp = refl

-- After `set`, the path gives the new static path with the manager's options behind its own,
-- whether or not it was set before, and every other path gives what it gave.
pub get-set :
    (m : StaticPathManager) (path query : Bytes) (sp : StaticPath)
    → get (set m path sp) query ≡ (if bytes_eq query path then some (merged m sp) else get m query)
unfolding entry
get-set m path query sp =
    get-entry (set m path sp) query
    ∙ rw (set-options m path sp, find-set m path query sp, entry_if, get-entry m query)

-- Options that are set twice are those of the later call, and where it names none, of the earlier
-- one: `get` gives what it gives after one call with both merged.
pub get-set_manager_options :
    (m : StaticPathManager) (first second : StaticPathOptions) (path : Bytes)
    → get (set_manager_options (set_manager_options m first) second) path
      ≡ get (set_manager_options m (merge second first)) path
unfolding set_manager_options set_options merge
get-set_manager_options m first second path =
    ap (λ o. get (record m { options = o }) path) (ground arith)
