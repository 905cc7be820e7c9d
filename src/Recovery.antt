-- ===== src/Recovery.antt =====
-- darm_guard/broker.py, `Broker._recover_rename`: what a broker
-- does at its start with a rename that was interrupted.
pub mod Pending
pub mod Calm
pub mod Crash
pub mod Ends
pub mod Replay
pub mod Tests
use darm_guard.Prelude.{
  Bool, true, false, ◌&&◌, ◌||◌, String, Option, none, some, ◌==◌, ◌!=◌, string_eq, option_eq,
  if◌then◌else◌,
}
use darm_guard.Prelude.Result.{Result, ok, err}
use darm_guard.Intent.{Observed, absent, present, unavailable}
use darm_guard.Intent.Store.{Reconciliation, confirmed_success, confirmed_failure, unresolved}
use darm_guard.Attest.{Scheme, Raw, Keys, Checked, check_attestation}
use darm_guard.Journal.{Record}
use darm_guard.Host.{
  Host, Opened, slot, Io, ◌>>=◌, ◌>>◌, give, safe, raw_attestation, read_attestation, or_empty,
  observe, raises,
}
use darm_guard.Reconcile.{observed_beq, is_intended}
use darm_guard.Effect.{
  Node, regular, special, World, Outcome, Errno, not_implemented, not_text, turn, at, Kind, no_file,
  regular_file, special_file, leaf_kind, leaf_state, digest_at, rename_noreplace, set_att,
}

module _ (host : Host) where
  -- the attestation of the private name, checked with the keys
  unfoldable pub checked : Option String → Option Checked
  unfolding check_attestation
  checked none = none
  checked (some raw) = if raw == "" then none else elim host.keys [
    | none ↦ none
    | some keys ↦ check_attestation host.scheme host.hmac keys (host.decode raw)
  ]

  -- the attestation is of this request, and names the destination
  unfoldable pub is_reattested : String → String → Option Checked → Bool
  is_reattested rid target none = false
  is_reattested rid target (some a) = a.target == target && a.rid == rid

  unfoldable pub digest_is : String → String → Kind → Io Bool
  unfolding digest_at
  digest_is d name regular_file = do found ← digest_at host.sha256 name; give (found == d)
  digest_is d name no_file = give false
  digest_is d name special_file = give false

  -- the name holds a regular file with the content that the source had before
  unfoldable pub is_ours : Option Observed → String → Io Bool
  unfolding digest_is leaf_kind
  is_ours (some (present d)) name = do kind ← safe (leaf_kind name); digest_is d name kind
  is_ours (some absent) name = give false
  is_ours (some (unavailable why)) name = give false
  is_ours none name = give false

  unfoldable pub roll_back : Record → String → String → Io (Unit {0})
  unfolding is_ours rename_noreplace set_att
  roll_back e private source = do
    ours ← is_ours e.before private
    rename_noreplace host.has_renameat2 private source
    if ours then set_att source e.source_attestation else give tt

  unfoldable pub placed : Record → String → String → String → Kind → Io (Unit {0})
  unfolding roll_back rename_noreplace
  placed e private source target no_file = rename_noreplace host.has_renameat2 private target
  placed e private source target regular_file = roll_back e private source
  placed e private source target special_file = roll_back e private source

  unfoldable pub forward_or_back : Record → String → String → String → Bool → Io (Unit {0})
  unfolding placed roll_back leaf_kind
  forward_or_back e private source target true = do
    kind ← safe (leaf_kind target)
    placed e private source target kind
  forward_or_back e private source target false = roll_back e private source

  -- the private name has a file: forward, or back
  unfoldable pub move_private : Record → String → String → String → Io (Unit {0})
  unfolding forward_or_back raw_attestation is_reattested checked
  move_private e private source target = do
    raw ← safe (raw_attestation private)
    forward_or_back e private source target (is_reattested e.rid (or_empty e.target) (checked raw))

  unfoldable pub reattest : Record → String → Bool → Io (Unit {0})
  unfolding read_attestation set_att
  reattest e source false = give tt
  reattest e source true = do
    now ← read_attestation host source
    if now != e.source_attestation then set_att source e.source_attestation else give tt

  -- the private name has no file: the source's attestation again, where the source is as it was
  unfoldable pub restore_source : Record → String → Io (Unit {0})
  unfolding is_ours reattest
  restore_source e source = do ours ← is_ours e.before source; reattest e source ours

  unfoldable pub complete : Record → String → String → String → Kind → Io (Unit {0})
  unfolding restore_source move_private
  complete e private source target no_file = restore_source e source
  complete e private source target regular_file = move_private e private source target
  complete e private source target special_file = move_private e private source target

  unfoldable pub complete_rename : Record → String → String → String → Io (Unit {0})
  unfolding complete leaf_kind
  complete_rename e private source target = do
    kind ← safe (leaf_kind private)
    complete e private source target kind

  -- the verdict on the two paths
  unfoldable pub judge_rename : Record → Observed → Observed → Reconciliation
  unfolding is_intended observed_beq
  judge_rename e source_now target_now =
      if is_intended e.intended target_now && observed_beq source_now absent
      then confirmed_success
      else if is_intended e.before source_now && is_intended e.destination_before target_now
      then confirmed_failure
      else unresolved

  -- `NotImplementedError` and `UnicodeDecodeError` are no `OSError`s
  unfoldable pub classified : Record → Outcome (Unit {0}) → Result (Unit {0}) Reconciliation × World
  unfolding observe judge_rename
  classified e (err not_implemented, w) = (err tt, w)
  classified e (err not_text, w) = (err tt, w)
  classified e (err _, w) = (ok unresolved, w)
  classified e (ok u, w) =
      let (source_now, w1) = observe host (or_empty e.source) w in
      let (target_now, w2) = observe host (or_empty e.target) w1 in
      (ok (judge_rename e source_now target_now), w2)

  unfoldable pub recover_opened :
      Record → Option String → Opened → Opened → World → Result (Unit {0}) Reconciliation × World
  unfolding classified complete_rename raises
  recover_opened e (some private) (slot source) (slot target) w =
      classified e (complete_rename e (host.beside source private) source target w)
  recover_opened e private source target w =
      if raises source || raises target then (err tt, w) else (ok unresolved, w)

  -- `_recover_rename`; `err` is an exception that leaves it
  unfoldable pub recover_rename : Record → World → Result (Unit {0}) Reconciliation × World
  unfolding recover_opened
  recover_rename e w =
      recover_opened e e.private (host.opened (or_empty e.source)) (host.opened (or_empty e.target))
        w
