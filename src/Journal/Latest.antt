-- ===== src/Journal/Latest.antt =====
-- `_latest_entries`: the entry of one path.
use darm_guard.Prelude.{
  Bool, false, not, ◌&&◌, String, ◌≡◌, refl, ◌∙◌, inl, inr, Option, none, some, List, [], ◌∷◌, ◌++◌,
  ◌==◌, string_eq, if◌then◌else◌, arith, Bool-cases, Option-cases,
}
use darm_guard.Prelude.Dict
use darm_guard.Prelude.Dict.{get-put}
use darm_guard.Attest.{Op, delete}
use darm_guard.Journal.{
  Record, is_effective, is_tool, op_of, Entries, note_source, note_target, note, latest_from,
  latest_entries,
}

abbrev is_path : String → Option String → Bool
is_path p none = false
is_path p (some q) = q == p

-- What a record says of a path: a rename deletes its source and writes its target, and its source
-- is read last.
abbrev pub touches : String → Record → Option (String × Op)
touches p r = if not (is_effective r) then none else elim r.target [
  | none ↦ none
  | some target ↦
      if is_path p r.source && is_tool "rename_file" r.tool
      then some (r.rid, delete)
      else if target == p
      then some (r.rid, op_of r)
      else none
]

abbrev pub last_touch : String → List Record → Option (String × Op)
last_touch p [] = none
last_touch p (r ∷ rest) = elim (last_touch p rest) [ some x ↦ some x | none ↦ touches p r ]

abbrev pub or_else : Option (String × Op) → Option (String × Op) → Option (String × Op)
or_else (some x) y = some x
or_else none y = y

get-note_source :
    (p : String) (r : Record) (source : Option String) (latest : Entries)
    → Dict.get p (note_source r source latest) ≡ (
        if is_path p source && is_tool "rename_file" r.tool
        then some (r.rid, delete)
        else Dict.get p latest)
unfolding note_source
get-note_source p r none latest = refl
get-note_source p r (some s) latest = elim (Bool-cases (is_tool "rename_file" r.tool)) [
  | inl e ↦ rw e (get-put s p (r.rid, delete) latest ∙ ground (arith))
  | inr e ↦ rw e (ground arith)
]

get-note_target :
    (p : String) (r : Record) (target : Option String) (latest : Entries)
    → Dict.get p (note_target r target latest) ≡ (elim target [
      | none ↦ Dict.get p latest
      | some t ↦
          if is_path p r.source && is_tool "rename_file" r.tool
          then some (r.rid, delete)
          else if t == p
          then some (r.rid, op_of r)
          else Dict.get p latest
    ])
unfolding note_target
get-note_target p r none latest = refl
get-note_target p r (some t) latest =
    get-note_source p r r.source (Dict.put t (r.rid, op_of r) latest)
    ∙ elim (Bool-cases (is_path p r.source && is_tool "rename_file" r.tool)) [
      | inl e ↦ rw e refl
      | inr e ↦ rw e (get-put t p (r.rid, op_of r) latest)
    ]

pub get-note :
    (p : String) (r : Record) (latest : Entries)
    → Dict.get p (note r latest) ≡ or_else (touches p r) (Dict.get p latest)
unfolding note
get-note p r latest = elim (Bool-cases (is_effective r)) [
  | inr e ↦ rw e refl
  | inl e ↦ rw e (elim (Option-cases r.target) [
    | inl t ↦ rw t (get-note_target p r none latest)
    | inr (target, t) ↦ rw t (
        get-note_target p r (some target) latest
        ∙ elim (Bool-cases (is_path p r.source && is_tool "rename_file" r.tool)) [
          | inl m ↦ rw m refl
          | inr m ↦ rw m (elim (Bool-cases (target == p)) [ inl n ↦ rw n refl | inr n ↦ rw n refl ])
        ])
  ])
]

pub get-latest_from :
    (p : String) (latest : Entries) (rs : List Record)
    → Dict.get p (latest_from latest rs) ≡ or_else (last_touch p rs) (Dict.get p latest)
unfolding latest_from
get-latest_from p latest [] = refl
get-latest_from p latest (r ∷ rest) =
    get-latest_from p (note r latest) rest ∙ elim (Option-cases (last_touch p rest)) [
      | inl e ↦ rw e (get-note p r latest)
      | inr (x, e) ↦ rw e refl
    ]

-- The reading of the log that verification and reads share: the entry of a path is that of the last
-- record with an effect that touches the path.
pub latest_entries-last_touch :
    (p : String) (rs : List Record) → Dict.get p (latest_entries rs).0 ≡ last_touch p rs
unfolding latest_entries Dict.get
latest_entries-last_touch p rs =
    get-latest_from p [] rs
    ∙ elim (Option-cases (last_touch p rs)) [ inl e ↦ rw e refl | inr (x, e) ↦ rw e refl ]

pub last_touch-append :
    (p : String) (rs : List Record) (r : Record)
    → last_touch p (rs ++ r ∷ []) ≡ or_else (touches p r) (last_touch p rs)
last_touch-append p [] r = elim (Option-cases (touches p r)) [
  | inl e ↦ rw e refl
  | inr (x, e) ↦ rw e refl
]
last_touch-append p (q ∷ rest) r =
    rw (last_touch-append p rest r)
      (elim (Option-cases (touches p r)) [ inl e ↦ rw e refl | inr (x, e) ↦ rw e refl ])
