-- ===== src/Intent/Store/Startup/Leaves.antt =====
-- Which intents are still reserved after a restart, and with what each was settled.
use darm_guard.Prelude.{
  Bool, true, false, String, Option, none, some, List, [], ◌∷◌, ◌==◌, string_eq, if◌then◌else◌,
}
use darm_guard.Prelude.Dict
use darm_guard.Prelude.Dict.{Dict}
use darm_guard.Intent.{Intent}
use darm_guard.Intent.Store.{Reconciliation, confirmed_success, confirmed_failure, unresolved}
use darm_guard.Intent.Store.Startup.{
  Ending, judged, outcome_succeeded, outcome_failed, outcome_other, unjudged,
}

is_resolved : Reconciliation → Bool
is_resolved confirmed_success = true
is_resolved confirmed_failure = true
is_resolved unresolved = false

-- The latest line of the log of how a request ended.
abbrev pub last_ending : String → List (String × Ending) → Option Ending
last_ending rid [] = none
last_ending rid ((r, e) ∷ rest) = elim (last_ending rid rest) [
  | some later ↦ some later
  | none ↦ if r == rid then some e else none
]

-- How a request ended, by its latest line: a verdict of a line counts as it is, an outcome without
-- one by its effect, and nothing else is known.
abbrev pub ended : Option Ending → Reconciliation
ended (some (judged confirmed_success)) = confirmed_success
ended (some outcome_succeeded) = confirmed_success
ended (some (judged confirmed_failure)) = confirmed_failure
ended (some outcome_failed) = confirmed_failure
ended (some (judged unresolved)) = unresolved
ended (some outcome_other) = unresolved
ended (some unjudged) = unresolved
ended none = unresolved

-- the intent that is still reserved after that ending
abbrev pub left_reserved : Reconciliation → Option Intent → Option Intent
left_reserved confirmed_success i = none
left_reserved confirmed_failure i = none
left_reserved unresolved i = i

abbrev map_ended : Option Ending → Option Reconciliation → Option Reconciliation
map_ended (some e) d = some (ended (some e))
map_ended none d = d
