-- ===== src/Recovery/Pending.antt =====
-- darm_guard/broker.py, `Broker.reconcile_pending`: every request that the log leaves without an
-- outcome is closed, and the table of idempotency keys is filled again.
use darm_guard.Prelude.{
  Bool, String, Option, none, some, List, [], ◌∷◌, ◌++◌, string_eq, if◌then◌else◌,
}
use darm_guard.Prelude.Dict
use darm_guard.Prelude.Dict.{Dict}
use darm_guard.Prelude.Result.{Result, ok, err}
use darm_guard.Intent.{Observed}
use darm_guard.Intent.Store.{Reconciliation, confirmed_success, confirmed_failure, unresolved}
use darm_guard.Journal.{prepared, outcome, reconciled, Effected, succeeded, failed, Record, is_tool}
use darm_guard.Keys.{State, pending, done, dead}
use darm_guard.Reconcile.{reconcile}
use darm_guard.Effect.{World}
use darm_guard.Host.{Host, observe, raises}
use darm_guard.Recovery.{recover_rename}

-- `e.get("effect") or e.get("reconciliation")`, and the verdict of a reconciliation
pub data Closing : Type 0 where
  effect : Effected → Closing
  verdict : Reconciliation → Closing

abbrev pub closing : Option Effected → Option Reconciliation → Option Closing
closing (some x) v = some (effect x)
closing none (some v) = some (verdict v)
closing none none = none

unfoldable pub note_prepared : Record → Dict Record → Dict Record
unfolding Dict.put
note_prepared e d = elim e.event [ prepared ↦ Dict.put e.rid e d | _ ↦ d ]

abbrev pub Closings : Type 0
Closings = Dict (Option Closing)

unfoldable pub note_closed : Record → Closings → Closings
unfolding Dict.put
note_closed e d = elim e.event [
  | outcome ↦ Dict.put e.rid (closing e.effect e.reconciliation) d
  | reconciled ↦ Dict.put e.rid (closing e.effect e.reconciliation) d
  | _ ↦ d
]

-- the first loop: the requests that were prepared, and those that were closed
unfoldable pub prepared_of : Dict Record → List Record → Dict Record
unfolding note_prepared
prepared_of d [] = d
prepared_of d (e ∷ rest) = prepared_of (note_prepared e d) rest

unfoldable pub closed_of : Closings → List Record → Closings
unfolding note_closed
closed_of d [] = d
closed_of d (e ∷ rest) = closed_of (note_closed e d) rest

-- an entry of the table of keys
pub record Restored : Type 0 where
  pub rid : String
  pub hash : Option String
  pub state : State
  pub effect : Option Closing

unfoldable pub restored_state : Option Closing → State
restored_state (some (effect succeeded)) = done
restored_state (some (verdict confirmed_success)) = done
restored_state (some (effect failed)) = dead
restored_state (some (verdict confirmed_failure)) = dead
restored_state _ = pending

unfoldable pub restore_key :
    String → Record → Option String → Option Closing → Dict Restored → Dict Restored
unfolding Dict.put restored_state
restore_key rid e none v keys = keys
restore_key rid e (some k) v keys =
    Dict.put k (record { rid = rid; hash = e.hash; state = restored_state v; effect = v }) keys

-- What the second loop changes: the world, what is closed, the keys, and the records that are
-- appended to the log.
pub record Progress : Type 0 where
  pub world : World
  pub closed : Closings
  pub keys : Dict Restored
  pub appended : List Record

unfoldable pub reconciled_record : String → Record → Reconciliation → Record
reconciled_record rid e v = record {
  event = reconciled;
  rid = rid;
  tool = e.tool;
  hash = e.hash;
  effect = none;
  reconciliation = some v;
  target = e.target;
  source = e.source;
  private = none;
  before = none;
  intended = none;
  destination_before = none;
  source_attestation = none;
  key = none;
}

unfoldable pub with_key : String → Record → Option Closing → Progress → Progress
unfolding restore_key
with_key rid e v p = record p { keys = restore_key rid e e.key v p.keys }

unfoldable pub close : String → Record → Reconciliation → World → Progress → Progress
unfolding reconciled_record Dict.put
close rid e v w p = record {
  world = w;
  closed = Dict.put rid (some (verdict v)) p.closed;
  keys = p.keys;
  appended = p.appended ++ reconciled_record rid e v ∷ [];
}

unfoldable pub closed_by :
    (List Record → Bool)
    → String
    → Record
    → Result (Unit {0}) Reconciliation × World
    → Progress
    → Result (Unit {0}) (Unit {0}) × Progress
unfolding with_key close
closed_by can_close rid e (ok v, w) p =
    if can_close p.appended
    then (ok tt, with_key rid e (some (verdict v)) (close rid e v w p))
    else (err tt, record p { world = w })
closed_by can_close rid e (err u, w) p = (err tt, record p { world = w })

module _ (host : Host) where
  unfoldable pub judge_target :
      Record → Option String → Option Observed → World → Result (Unit {0}) Reconciliation × World
  unfolding observe reconcile raises
  judge_target e (some target) (some intended) w =
      let (now, w') = observe host target w in
      if raises (host.opened target)
      then (err tt, w)
      else (ok (reconcile e.before (some intended) now), w')
  judge_target e _ _ w = (ok unresolved, w)

  -- the verdict on a request without an outcome
  unfoldable pub judge_request : Record → World → Result (Unit {0}) Reconciliation × World
  unfolding judge_target recover_rename
  judge_request e w = elim (is_tool "rename_file" e.tool) [
    | Bool.true ↦ recover_rename host e w
    | Bool.false ↦ judge_target e e.target e.intended w
  ]

  -- one round of the second loop; an exception ends it
  unfoldable pub resume_one : String → Record → Progress → Result (Unit {0}) (Unit {0}) × Progress
  unfolding with_key closed_by judge_request Dict.get
  resume_one rid e p = elim (Dict.get rid p.closed) [
    | some v ↦ (ok tt, with_key rid e v p)
    | none ↦ closed_by host.can_close rid e (judge_request e p.world) p
  ]

  unfoldable pub resume : Dict Record → Progress → Result (Unit {0}) (Unit {0}) × Progress
  unfolding resume_one
  resume [] p = (ok tt, p)
  resume ((rid, e) ∷ rest) p =
      let (r, p') = resume_one rid e p in elim r [ ok u ↦ resume rest p' | err u ↦ (err u, p') ]

  -- `reconcile_pending` on the records of the log; the requests that it closes are the records that
  -- it appends
  unfoldable pub reconcile_pending :
      List Record → Dict Restored → World → Result (Unit {0}) (Unit {0}) × Progress
  unfolding resume prepared_of closed_of
  reconcile_pending rs keys w =
      resume (prepared_of [] rs)
        (record { world = w; closed = closed_of [] rs; keys = keys; appended = [] })
