-- ===== src/World/Tests.antt =====
-- A workspace of one attested file.
use darm_guard.Prelude.{String, ◌≡◌, refl, ◌↔◌, Bool, true, false, some, none, List, [], ◌∷◌, All}
use darm_guard.Attest.{Keys, v2, message, make_ring, sign}
use darm_guard.Attest.Ring.{make_ring-IsReady}
use darm_guard.Attest.Tests.{toy, toy-IsCorrect, ring, hmac}
use darm_guard.Intent.{absent, present}
use darm_guard.Intent.Store.{confirmed_success}
use darm_guard.Journal.{Record, outcome, succeeded, is_effective, latest_entries}
use darm_guard.World.{File, verify_world, retire, file_report}
use darm_guard.World.Consistent.{IsConsistent, AllThere, verify_world-IsConsistent}
use darm_guard.World.Written.{file_report-written}
use darm_guard.World.Retire.{retire-verify_world}
use Prim.Native.String.{◌++◌ as concat}

-- a digest that can be computed
abbrev sha256 : String → String
sha256 c = concat "d:" c

abbrev keys : Keys
keys = record { ring = ring; legacy = some "s" }

abbrev file : File
file = record {
  relative = "a";
  name = "a";
  is_link = false;
  raw = some (
      v2 (record {
        rid = "r1";
        target = "/workspace/a";
        digest = "d:x";
        kid = "k1";
        sig = concat "k1" (message "r1" "/workspace/a" "d:x");
      }));
  content = "x";
}

-- the record of the outcome of a write that succeeded and was confirmed
abbrev outcome_of : String → String → Record
outcome_of rid path = record {
  event = outcome;
  rid = rid;
  tool = some "write_file";
  hash = some "h";
  effect = some succeeded;
  reconciliation = some confirmed_success;
  target = some path;
  source = none;
  private = none;
  before = some absent;
  intended = some (present "d:x");
  destination_before = none;
  source_attestation = none;
  key = none;
}

abbrev log : List Record
log = outcome_of "r1" "/workspace/a" ∷ outcome_of "r2" "/workspace/b" ∷ []

abbrev there : String → Bool
there path = true

verify_world-IsConsistent_example :
    ((verify_world toy hmac sha256 (some keys) (file ∷ []) there log).findings ≡ []) ↔ (
      All (IsConsistent toy hmac sha256 (some keys) (latest_entries log)) (file ∷ [])
      × AllThere toy hmac sha256 (some keys) there (latest_entries log).0)
verify_world-IsConsistent_example =
    verify_world-IsConsistent toy hmac sha256 (some keys) (file ∷ []) there log

file_report-written_example :
    (file_report toy hmac sha256 (some keys) (latest_entries log) file).findings ≡ []
unfolding sign make_ring is_effective
file_report-written_example =
    file_report-written toy hmac sha256 keys "r1" log file toy-IsCorrect
      (make_ring-IsReady toy "k1" []) _ refl refl refl

retire-verify_world_example :
    verify_world toy hmac sha256
      (some (retire toy hmac sha256 keys (file ∷ []) there log).1)
      (file ∷ [])
      there
      log
    ≡ verify_world toy hmac sha256 (some keys) (file ∷ []) there log
unfolding retire verify_world make_ring
retire-verify_world_example = retire-verify_world toy hmac sha256 keys (file ∷ []) there log refl
