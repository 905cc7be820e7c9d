-- ===== src/Execute/Tests.antt =====
-- A file that is read.
use darm_guard.Prelude.{String, ◌≡◌, refl, none, [], ◌∷◌}
use darm_guard.Prelude.Dict
use darm_guard.Registry.{Invocation, untrusted}
use darm_guard.Fetch.{Fetched, not_resolved}
use darm_guard.Effect.{Disk, regular}
use darm_guard.Effect.Replace.{calm}
use darm_guard.Recovery.Tests.{host}
use darm_guard.Execute.{Orders, content, execute}
use darm_guard.Execute.Quiet.{execute-quiet}

abbrev reading : Invocation
reading = record {
  tool = "read_file";
  args = (record { key = "path"; value = "/workspace/a"; prov = untrusted }) ∷ [];
}

abbrev pub no_fetch : String → Fetched
no_fetch url = not_resolved

abbrev orders : Orders
orders = record {
  expected = none;
  attest = none;
  private = none;
  old_att = none;
  fresh = λ name. ".tmp";
}

abbrev pub disk : Disk
disk = ("/workspace/a", regular "x" none) ∷ []

execute-quiet_example : (execute host no_fetch orders reading (calm disk)).1 ≡ calm disk
execute-quiet_example =
    execute-quiet host no_fetch orders reading disk ((λ e. cc), (λ e. cc), (λ e. cc))

read : (execute host no_fetch orders reading (calm disk)).0 ≡ content "x" none
unfolding execute Dict.get
read = refl
