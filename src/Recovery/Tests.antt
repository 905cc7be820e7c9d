-- ===== src/Recovery/Tests.antt =====
-- A rename that was interrupted after its claim was attested, and a write without an outcome.
use Prim.Native.String.{◌++◌ as concat}
use darm_guard.Prelude.{
  true, false, String, ◌≡◌, refl, none, some, [], ◌∷◌, ◌++◌, ◌==◌, string_eq, eq_iff, if◌then◌else◌,
}
use darm_guard.Prelude.Dict
use darm_guard.Prelude.Result.{ok}
use darm_guard.Intent.{present, absent}
use darm_guard.Attest.{Raw, v2, garbled, message, make_ring}
use darm_guard.Attest.Tests.{toy, ring, hmac}
use darm_guard.Journal.{Record, prepared}
use darm_guard.Effect.{regular, Disk}
use darm_guard.Effect.Replace.{calm}
use darm_guard.Host.{raises, Host, slot}
use darm_guard.Recovery.{is_reattested, checked, recover_rename}
use darm_guard.Recovery.Pending.{prepared_of, closed_of, reconcile_pending}
use darm_guard.Recovery.Crash.{IsPrepared, attested, IsRecovered, recover_rename-IsRecovered}
use darm_guard.Recovery.Ends.{IsSound, reconcile_pending-ends}
use darm_guard.Recovery.Replay.{AllClosed, reconcile_pending-again}

abbrev decode : String → Raw
decode bytes =
    if bytes == "new"
    then v2 (record {
      rid = "r2";
      target = "/workspace/b";
      digest = "d:x";
      kid = "k1";
      sig = concat "k1" (message "r2" "/workspace/b" "d:x");
    })
    else garbled

abbrev pub host : Host
host = record {
  scheme = toy;
  hmac = hmac;
  sha256 = λ c. concat "d:" c;
  decode = decode;
  keys = some (record { ring = ring; legacy = none });
  opened = slot;
  beside = λ source leaf. leaf;
  has_renameat2 = true;
  describe = λ e. "OSError";
  is_link = λ name d. false;
  has_other_names = λ name d. false;
  is_text = λ bytes. true;
  decode_text = λ bytes. some bytes;
  can_close = λ appended. true;
  keeps_attributes = true;
  listing = λ name d. ok [];
  encode = λ raw. "new";
}

abbrev renaming : Record
renaming = record {
  event = prepared;
  rid = "r2";
  tool = some "rename_file";
  hash = some "h";
  effect = none;
  reconciliation = none;
  target = some "/workspace/b";
  source = some "/workspace/a";
  private = some ".a.darm-tmp-mv-1";
  before = some (present "d:x");
  intended = some (present "d:x");
  destination_before = some absent;
  source_attestation = some "old";
  key = some "k";
}

abbrev disk : Disk
disk = (".a.darm-tmp-mv-1", regular "x" (some "new")) ∷ []

renaming-IsPrepared :
    IsPrepared host renaming "/workspace/a" "/workspace/b" ".a.darm-tmp-mv-1" "x"
      (some "old")
      "new"
      none
unfolding is_reattested checked make_ring Dict.get
renaming-IsPrepared = record {
  leaf = ".a.darm-tmp-mv-1";
  names_private = refl;
  private_slot = refl;
  source_slot = refl;
  target_slot = refl;
  private_apart = ((λ e. cc), (λ e. cc));
  apart = λ e. let same : false ≡ true = (eq_iff "/workspace/a" "/workspace/b").1 e in cc;
  before = refl;
  intended = refl;
  destination_before = refl;
  attestation = refl;
  old_is_text = refl;
  new_is_text = refl;
  new_is_ours = refl;
  old_is_not = refl;
  has_renameat2 = refl;
}

recover_rename-IsRecovered_example :
    IsRecovered "/workspace/a" "/workspace/b" ".a.darm-tmp-mv-1" "x"
      (some "old")
      "new"
      none
      (recover_rename host renaming (calm disk))
unfolding Dict.get
recover_rename-IsRecovered_example =
    recover_rename-IsRecovered "/workspace/a" "/workspace/b" ".a.darm-tmp-mv-1" "x" (some "old")
      "new" none host renaming renaming-IsPrepared disk (attested (refl, refl, refl))

host-IsSound : IsSound host
unfolding raises
host-IsSound = record {
  has_renameat2 = refl;
  opens = λ path. refl;
  is_text = λ bytes. refl;
  can_close = λ appended. refl;
}

reconcile_pending-again_example :
    (let log =
        (renaming ∷ []) ++ (reconcile_pending host (renaming ∷ []) [] (calm disk)).1.appended in
      AllClosed (closed_of [] log) (prepared_of [] log)
      × (reconcile_pending host log [] (calm []) ≡ (
        ok tt,
        record {
          world = calm [];
          closed = (reconcile_pending host (renaming ∷ []) [] (calm disk)).1.closed;
          keys = (reconcile_pending host (renaming ∷ []) [] (calm disk)).1.keys;
          appended = [];
        },
      )))
reconcile_pending-again_example =
    reconcile_pending-again host (renaming ∷ []) [] (calm disk) (calm [])
      (reconcile_pending-ends host (renaming ∷ []) [] (calm disk) host-IsSound)
