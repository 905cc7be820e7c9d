-- ===== src/Reconcile.antt =====
-- darm_guard/broker.py: `_intended_state`, `_reconcile`, and the verdict on the two paths of a
-- rename: what is known of an effect from the state of its target.
pub mod Verdicts
pub mod Tests
use darm_guard.Prelude.{
  Bool, true, false, not, ◌&&◌, ◌||◌, String, Option, none, some, List, [], ◌∷◌, ◌==◌, string_eq,
  if◌then◌else◌,
}
use darm_guard.Prelude.Dict
use darm_guard.Prelude.Dict.{Dict}
use darm_guard.Registry.{Invocation, Arg}
use darm_guard.Intent.{Observed, absent, present, unavailable}
use darm_guard.Intent.Store.{Reconciliation, confirmed_success, confirmed_failure, unresolved}

-- `{a["key"]: a["value"] for a in inv["args"]}`
unfoldable pub args_dict : List Arg → Dict String → Dict String
unfolding Dict.put
args_dict [] d = d
args_dict (a ∷ rest) d = args_dict rest (Dict.put a.key a.value d)

-- `==` of two observed states
unfoldable pub observed_beq : Observed → Observed → Bool
observed_beq absent absent = true
observed_beq (present d) (present e) = d == e
observed_beq (unavailable x) (unavailable y) = x == y
observed_beq _ _ = false

unfoldable pub is_intended : Option Observed → Observed → Bool
unfolding observed_beq
is_intended none o = false
is_intended (some i) o = observed_beq o i

-- `before is not None and before != intended and observed == before`
unfoldable pub is_before : Option Observed → Option Observed → Observed → Bool
unfolding observed_beq is_intended
is_before none intended o = false
is_before (some b) intended o = not (is_intended intended b) && observed_beq o b

unfoldable pub is_unavailable : Observed → Bool
is_unavailable (unavailable x) = true
is_unavailable _ = false

-- `_reconcile`
unfoldable pub reconcile : Option Observed → Option Observed → Observed → Reconciliation
unfolding is_unavailable is_intended is_before
reconcile before intended o =
    if is_unavailable o
    then unresolved
    else if is_intended intended o
    then confirmed_success
    else if is_before before intended o
    then confirmed_failure
    else unresolved

-- the verdict on a rename: what the source and the target were, and what they are
unfoldable pub reconcile_rename :
    Observed → Observed → Observed → Observed → Observed → Reconciliation
unfolding observed_beq
reconcile_rename before target_before intended source_now target_now =
    if observed_beq target_now intended && observed_beq source_now absent
    then confirmed_success
    else if observed_beq source_now before && observed_beq target_now target_before
    then confirmed_failure
    else unresolved

module _ (sha256 : String → String) where
  written : Option String → Option String → Option Observed
  written (some path) (some content) = some (present (sha256 content))
  written _ _ = none

  deleted : Option String → Option Observed
  deleted (some path) = some absent
  deleted none = none

  -- `_intended_state`
  unfoldable pub intended_state : Invocation → Option Observed
  unfolding args_dict written deleted Dict.get
  intended_state inv =
      let args = args_dict inv.args [] in
      if inv.tool == "delete_file"
      then deleted (Dict.get "path" args)
      else if inv.tool == "write_file"
      then written (Dict.get "path" args) (Dict.get "content" args)
      else none
