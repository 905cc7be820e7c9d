-- ===== src/Journal/Tests.antt =====
-- A file that is written and renamed.
use darm_guard.Prelude.{◌≡◌, some, none, [], ◌∷◌}
use darm_guard.Prelude.Dict
use darm_guard.Journal.{Record, outcome, succeeded, latest_entries}
use darm_guard.Journal.Latest.{last_touch, latest_entries-last_touch}

abbrev wrote : Record
wrote = record {
  event = outcome;
  rid = "r1";
  tool = some "write_file";
  hash = none;
  effect = some succeeded;
  reconciliation = none;
  target = some "/workspace/a";
  source = none;
  private = none;
  before = none;
  intended = none;
  destination_before = none;
  source_attestation = none;
  key = none;
}

abbrev moved : Record
moved = record wrote {
  rid = "r2";
  tool = some "rename_file";
  target = some "/workspace/b";
  source = some "/workspace/a";
}

latest_entries-last_touch_example :
    Dict.get "/workspace/a" (latest_entries (wrote ∷ moved ∷ [])).0
    ≡ last_touch "/workspace/a" (wrote ∷ moved ∷ [])
latest_entries-last_touch_example = latest_entries-last_touch "/workspace/a" (wrote ∷ moved ∷ [])
