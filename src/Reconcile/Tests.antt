-- ===== src/Reconcile/Tests.antt =====
-- A write of "new" over "old".
use darm_guard.Prelude.{false, ◌≡◌, ◌≢◌, refl, Option, none, some, [], ◌∷◌}
use darm_guard.Prelude.Dict
use darm_guard.Registry.{Invocation, untrusted}
use darm_guard.Intent.{Intent, Observed, present}
use darm_guard.Intent.Store.{IntentStore, spent, returned, settle}
use darm_guard.Reconcile.{reconcile, intended_state}
use darm_guard.Reconcile.Verdicts.{settle-reconcile}

abbrev old_state : Option Observed
old_state = some (present "old")

abbrev new_state : Option Observed
new_state = some (present "new")

abbrev one_intent : Intent
one_intent = ("write_file", ("path", "/workspace/a") ∷ [])

abbrev store : IntentStore
store = record {
  intents = [];
  reserved = ("r1", one_intent) ∷ [];
  has_path = false;
  frozen = false;
  written = none;
  file = none;
  reserved_file = [];
}

settle-reconcile_example :
    ((settle "r1" (reconcile old_state new_state (present "old")) store).0 ≡ some spent
      → new_state ≡ some (present "old"))
    × ((settle "r1" (reconcile old_state new_state (present "old")) store).0 ≡ some returned
        → (old_state ≡ some (present "old")) × (new_state ≢ some (present "old")))
settle-reconcile_example = settle-reconcile "r1" old_state new_state (present "old") store

given_back : (settle "r1" (reconcile old_state new_state (present "old")) store).0 ≡ some returned
unfolding settle reconcile Dict.get
given_back = refl

abbrev write_new : Invocation
write_new = record {
  tool = "write_file";
  args =
      (record { key = "path"; value = "/workspace/a"; prov = untrusted })
      ∷ (record { key = "content"; value = "new"; prov = untrusted })
      ∷ [];
}

intended : intended_state (λ c. c) write_new ≡ new_state
unfolding intended_state Dict.get Dict.put
intended = refl
