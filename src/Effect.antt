-- ===== src/Effect.antt =====
-- darm_guard/broker.py, the file effects: the system calls of `_cas_replace`, `_cas_delete` and
-- `_rename_protocol`, on a disk that other processes change between any two of them.
pub mod Calls
pub mod Cas
pub mod Move
pub mod Replace
pub mod Undo
pub mod Delete
pub mod Rename
pub mod Tests
use darm_guard.Prelude.{
  Bool, true, false, String, Option, none, some, List, [], ◌∷◌, ◌==◌, string_eq, if◌then◌else◌,
}
use darm_guard.Prelude.Dict
use darm_guard.Prelude.Dict.{Dict}
use darm_guard.Prelude.Result.{Result, ok, err}
use darm_guard.Intent.{Observed, absent, present, unavailable}

-- What a name leads to: a regular file with its content and its attestation, or a link, a
-- directory, a device.
pub data Node : Type 0 where
  regular : String → Option String → Node
  special : Node

-- A name stands for a directory handle and a leaf in it.
abbrev pub Disk : Type 0
Disk = Dict Node

-- The disk, and what other processes do to it before each coming system call; past the end of the
-- list they do nothing.
pub record World : Type 0 where
  pub disk : Disk
  pub foreign : List (Disk → Disk)

-- The errors: all are `OSError`s but `NotImplementedError` and, for bytes that are no text,
-- `UnicodeDecodeError`.
pub data Errno : Type 0 where
  not_found exists not_regular no_workspace not_implemented not_text : Errno

-- an error that is no `OSError`
abbrev pub is_uncaught : Errno → Bool
is_uncaught not_implemented = true
is_uncaught not_text = true
is_uncaught _ = false

abbrev pub escapes : {A : Type 0} → Result Errno A → Bool
escapes (ok a) = false
escapes (err e) = is_uncaught e

abbrev pub Outcome : Type 0 → Type 0
Outcome A = Result Errno A × World

unfoldable pub act : List (Disk → Disk) → Disk → Disk
act [] d = d
act (f ∷ rest) d = f d

unfoldable pub left : List (Disk → Disk) → List (Disk → Disk)
left [] = []
left (f ∷ rest) = rest

-- the others' turn
unfoldable pub turn : World → World
unfolding act left
turn w = record { disk = act w.foreign w.disk; foreign = left w.foreign }

abbrev pub at : String → World → Option Node
at name w = Dict.get name w.disk

move_free : String → String → Node → Option Node → World → Outcome (Unit {0})
unfolding Dict.put Dict.remove
move_free src dst n (some other) w = (err exists, w)
move_free src dst n none w = (ok tt, record w { disk = Dict.put dst n (Dict.remove src w.disk) })

move_from : String → String → Option Node → World → Outcome (Unit {0})
unfolding move_free
move_from src dst none w = (err not_found, w)
move_from src dst (some n) w = move_free src dst n (at dst w) w

-- `_renameat2` with `_RENAME_NOREPLACE`; `has` says whether the C library has it
unfoldable pub rename_noreplace : Bool → String → String → World → Outcome (Unit {0})
unfolding turn move_from
rename_noreplace false src dst w = (err not_implemented, w)
rename_noreplace true src dst w = move_from src dst (at src (turn w)) (turn w)

swap : String → String → Option Node → Option Node → World → Outcome (Unit {0})
unfolding Dict.put
swap src dst (some a) (some b) w =
    (ok tt, record w { disk = Dict.put dst a (Dict.put src b w.disk) })
swap src dst _ _ w = (err not_found, w)

-- `_renameat2` with `_RENAME_EXCHANGE`
unfoldable pub rename_exchange : Bool → String → String → World → Outcome (Unit {0})
unfolding turn swap
rename_exchange false src dst w = (err not_implemented, w)
rename_exchange true src dst w = swap src dst (at src (turn w)) (at dst (turn w)) (turn w)

overwrite : String → String → Option Node → World → Outcome (Unit {0})
unfolding Dict.put Dict.remove
overwrite src dst none w = (err not_found, w)
overwrite src dst (some n) w = (ok tt, record w { disk = Dict.put dst n (Dict.remove src w.disk) })

-- `os.replace`
unfoldable pub replace : String → String → World → Outcome (Unit {0})
unfolding turn overwrite
replace src dst w = overwrite src dst (at src (turn w)) (turn w)

drop_node : String → Option Node → World → Outcome (Unit {0})
unfolding Dict.remove
drop_node name none w = (err not_found, w)
drop_node name (some n) w = (ok tt, record w { disk = Dict.remove name w.disk })

-- `os.unlink`
unfoldable pub unlink : String → World → Outcome (Unit {0})
unfolding turn drop_node
unlink name w = drop_node name (at name (turn w)) (turn w)

-- `_leaf_kind`: whether there is a file, and whether it is a regular one
pub data Kind : Type 0 where
  no_file regular_file special_file : Kind

unfoldable pub kind_of : Option Node → Kind
kind_of none = no_file
kind_of (some (regular c a)) = regular_file
kind_of (some special) = special_file

unfoldable pub leaf_kind : String → World → Kind × World
unfolding turn kind_of
leaf_kind name w = (kind_of (at name (turn w)), turn w)

put_att : String → Option String → Option Node → World → Outcome (Unit {0})
unfolding Dict.put
put_att name value none w = (err not_found, w)
put_att name value (some (regular c a)) w =
    (ok tt, record w { disk = Dict.put name (regular c value) w.disk })
put_att name value (some special) w = (err not_regular, w)

-- `_set_att`
unfoldable pub set_att : String → Option String → World → Outcome (Unit {0})
unfolding turn put_att
set_att name value w = put_att name value (at name (turn w)) (turn w)

-- `sha256` is the digest of a content.
module _ (sha256 : String → String) where
  digest_of : Option Node → Result Errno String
  digest_of none = err not_found
  digest_of (some (regular c a)) = ok (sha256 c)
  digest_of (some special) = err not_regular

  -- `_digest_at`: a link is not followed, and a directory cannot be read
  unfoldable pub digest_at : String → World → Outcome String
  unfolding turn digest_of
  digest_at name w = (digest_of (at name (turn w)), turn w)

  present_at : Outcome String → Outcome Observed
  present_at (ok d, w) = (ok (present d), w)
  present_at (err e, w) = (err e, w)

  state_of : String → Kind → World → Outcome Observed
  unfolding digest_at present_at
  state_of name no_file w = (ok absent, w)
  state_of name special_file w = (ok (unavailable "target is not a regular file"), w)
  state_of name regular_file w = present_at (digest_at name w)

  -- `_leaf_state`
  unfoldable pub leaf_state : String → World → Outcome Observed
  unfolding leaf_kind state_of
  leaf_state name w = let (k, w') = leaf_kind name w in state_of name k w'
