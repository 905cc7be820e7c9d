-- ===== src/Intent/Store/Startup.antt =====
-- darm_guard/broker.py, `Broker.settle_reserved`: what a restart does with the intents that are
-- still reserved.
pub mod Leaves
use darm_guard.Prelude.{
  ℕ, ◌+◌, Bool, true, false, ◌&&◌, String, ◌≡◌, refl, ap, ◌∙◌, inl, inr, Option, none, some, List,
  [], ◌∷◌, map, elem, ◌==◌, string_eq, eq_iff, if◌then◌else◌, arith, Bool-cases, Option-cases,
}
use darm_guard.Prelude.Dict
use darm_guard.Prelude.Dict.{Dict, get-put, get-remove}
use darm_guard.Intent.{Intent}
use darm_guard.Intent.Store.{
  IntentStore, persist, Reconciliation, confirmed_success, confirmed_failure, unresolved,
  Settlement, spent, returned, kept, settlement, settle, settle_with,
}

-- What a line of the log says about how a request ended.
pub data Ending : Type 0 where
  -- an outcome or a reconciliation with a verdict
  judged : Reconciliation → Ending
  -- an outcome without one: `succeeded`, `failed`, or anything else
  outcome_succeeded outcome_failed outcome_other : Ending
  -- a reconciliation without a verdict
  unjudged : Ending

unfoldable pub verdict_of : Ending → Reconciliation
verdict_of (judged v) = v
verdict_of outcome_succeeded = confirmed_success
verdict_of outcome_failed = confirmed_failure
verdict_of outcome_other = unresolved
verdict_of unjudged = unresolved

abbrev pub is_reserved : Option Intent → Bool
is_reserved none = false
is_reserved (some i) = true

-- the loop over the log, whose lines are those that name a request and end it
unfoldable pub read_verdicts :
    List (String × Ending) → Dict Intent → Dict Reconciliation → Dict Reconciliation
unfolding verdict_of Dict.get Dict.put
read_verdicts [] reserved d = d
read_verdicts ((rid, e) ∷ rest) reserved d =
    let known = Dict.put rid (verdict_of e) d in
    read_verdicts rest reserved (if is_reserved (Dict.get rid reserved) then known else d)

-- `verdicts.get(rid, "unresolved")`
unfoldable pub verdict_for : String → Dict Reconciliation → Reconciliation
unfolding Dict.get
verdict_for rid d = elim (Dict.get rid d) [ none ↦ unresolved | some v ↦ v ]

-- one more settled request, unless it stays reserved
unfoldable pub add_settled : Option Settlement → ℕ → ℕ
add_settled (some kept) n = n
add_settled (some spent) n = n + 1
add_settled (some returned) n = n + 1
add_settled none n = n + 1

unfoldable pub settle_each : List String → Dict Reconciliation → ℕ × IntentStore → ℕ × IntentStore
unfolding settle verdict_for add_settled
settle_each [] verdicts x = x
settle_each (rid ∷ rest) verdicts (n, st) = settle_each rest verdicts (
  add_settled (settle rid (verdict_for rid verdicts) st).0 n,
  (settle rid (verdict_for rid verdicts) st).1,
)

-- `settle_reserved`: how many were settled, and the intents
unfoldable pub settle_reserved : List (String × Ending) → IntentStore → ℕ × IntentStore
unfolding settle_each read_verdicts
settle_reserved log st =
    settle_each (map (λ kv. kv.0) st.reserved) (read_verdicts log st.reserved []) (0, st)
