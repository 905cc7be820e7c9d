-- ===== src/Keys/Tests.antt =====
-- Requests with one key, and one with another.
use darm_guard.Prelude.{true, ◌≡◌, refl, some, [], ◌∷◌}
use darm_guard.Prelude.Dict
use darm_guard.Keys.{Attempt, succeeded, failed, already_applied, different, handle_key}
use darm_guard.Keys.Once.{keys_after, handle_key-retry}

abbrev first : Attempt
first = record {
  key = some "k";
  rid = "r1";
  hash = some "h";
  admitted = true;
  prepared = true;
  effect = succeeded;
}

abbrev other : Attempt
other = record {
  key = some "l";
  rid = "r2";
  hash = some "h";
  admitted = true;
  prepared = true;
  effect = failed;
}

abbrev again : Attempt
again = record first { rid = "r3" }

handle_key-retry_example :
    (handle_key again (keys_after (other ∷ []) (handle_key first []).1)).0 ≡ already_applied "r1"
unfolding handle_key Dict.get
handle_key-retry_example =
    handle_key-retry "k" "h" first again (other ∷ []) [] succeeded refl refl refl refl refl refl

reused : (handle_key (record again { hash = some "h2" }) (handle_key first []).1).0 ≡ different
unfolding handle_key Dict.get Dict.put
reused = refl
