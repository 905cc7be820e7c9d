-- ===== src/Checkpoint/Tests.antt =====
-- A log of two entries, and the checkpoint of its first.
use Prim.Native.String.{◌++◌ as concat}
use darm_guard.Prelude.{true, String, ◌≡◌, refl, none, some, [], ◌∷◌, All, ◌==◌, string_eq}
use darm_guard.Prelude.Dict
use darm_guard.Prelude.Text.{decimal}
use darm_guard.Audit.{at, append_entry, entries, load}
use darm_guard.Audit.Tests.{toy_hash, toy_hash-IsInjective, second_log}
use darm_guard.Attest.{Scheme, KeyRing, Checkpoint, checkpoint_message, verify_checkpoint}
use darm_guard.Checkpoint.{Checkpointer, check_log, maybe}
use darm_guard.Checkpoint.Extends.{Extends, check_log-Extends}

abbrev toy : Scheme
toy = record {
  public_of = λ k. k;
  sign = λ k m. concat k m;
  check = λ k m sig. sig == concat k m;
  key_id = λ k. k;
}

abbrev ring : KeyRing
ring = record { private = some "k1"; publics = ("k1", "k1") ∷ []; active = some "k1" }

abbrev head : String
head =
    toy_hash 7 (some "0000000000000000000000000000000000000000000000000000000000000000")
      (some (at 100))

abbrev published : Checkpoint
published = record {
  genesis = head;
  count = 1;
  head = head;
  kid = "k1";
  sig = concat "k1" (checkpoint_message head 1 head);
}

check_log-Extends_example :
    All
      (λ cp. (verify_checkpoint toy ring cp ≡ none) × Extends toy_hash (entries second_log.rows) cp)
      (published ∷ [])
unfolding check_log load append_entry toy_hash verify_checkpoint Dict.get decimal entries
check_log-Extends_example =
    check_log-Extends toy_hash toy second_log.rows (published ∷ []) ring {now = second_log}
      {r = record { findings = []; covered = 1 }} toy_hash-IsInjective refl refl refl

abbrev publisher : Checkpointer
publisher = record {
  ring = ring;
  every = 2;
  last_count = 1;
  last_attempt = 1;
  failures = 0;
  published = 1;
  sink = published ∷ [];
  outages = true ∷ [];
}

abbrev working : Checkpointer
working = record publisher { outages = [] }

failing : (maybe toy head 3 head true publisher).1.failures ≡ 1
unfolding maybe
failing = refl
