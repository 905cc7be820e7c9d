-- ===== src/Handle.antt =====
-- darm_guard/broker.py, `Broker._handle`: one request, from its message to its answer, over the
-- modules that model the parts.
pub mod Parts
pub mod Later
pub mod Order
pub mod Attempts
pub mod Once
pub mod Sequence
pub mod Tests
use darm_guard.Prelude.{
  Bool, true, false, not, ◌&&◌, ◌||◌, String, Option, none, some, List, [], ◌∷◌, ◌++◌, ◌==◌, ◌!=◌,
  string_eq, option_eq, if◌then◌else◌,
}
use darm_guard.Prelude.Dict
use darm_guard.Prelude.Dict.{Dict}
use darm_guard.Json.{Json, Fields, get, without}
use darm_guard.Registry.{Invocation}
use darm_guard.Intent.{Intent}
use darm_guard.Intent.Store.{
  IntentStore, Settlement, reserve, settle, Reconciliation, confirmed_success, confirmed_failure,
  unresolved,
}
use darm_guard.Journal.{
  Record, decision, duplicate, prepared, outcome, other, Effected, no_effect, already_applied,
  succeeded, failed, unknown,
}
use darm_guard.Keys
use darm_guard.Keys.{Prior, Answer, is_malformed, prior, set_key}
use darm_guard.Decision.{Config, Decided, Reply, admit, reject, decide}
use darm_guard.Kernel.{Request, Exchange, Client}
use darm_guard.Fetch.{Fetched}
use darm_guard.Effect.{World, Outcome}
use darm_guard.Prelude.Result.{ok, err}
use darm_guard.Host.{Host}
use darm_guard.Execute.{Executed, raised, Orders, execute}
use darm_guard.Handle.Parts.{
  Incoming, Setting, Plan, plan_of, has_attested_source, orders_of, judged_read, effect_of,
  reconciled_with, blank, prepared_record, outcome_record, settled_record, verdict_for_intent,
}

-- What the broker keeps between requests.
pub record Broker : Type 0 where
  pub log : List Record
  pub keys : Dict Prior
  pub intents : Option IntentStore
  pub client : Client
  pub world : World

-- What became of an effect's evidence: both records, the prepared one alone, and, with intents, the
-- settlement.
pub data Evidence : Type 0 where
  recorded outcome_unrecorded settlement_unrecorded : Evidence

-- The answer of `_handle`; `escaped` is an exception that leaves it.
pub data Response : Type 0 where
  malformed_key clock source_not_attested no_evidence escaped : Response
  repeated : Answer → Response
  refused : Reply → Bool → Response
  performed : Executed → Effected → Option Reconciliation → Evidence → Option Settlement → Response

-- the message without its key, and the key
unfoldable pub text_key : String → Fields → Option (Option String × Json)
unfolding without
text_key k fs =
    if is_malformed (some k) then none else some (some k, Json.obj (without "idempotency_key" fs))

unfoldable pub keyed : Fields → Option Json → Option (Option String × Json)
unfolding text_key
keyed fs none = some (none, Json.obj fs)
keyed fs (some (Json.str k)) = text_key k fs
keyed fs (some j) = none

-- `none` for a key that is malformed
unfoldable pub take_key : Json → Option (Option String × Json)
unfolding keyed get
take_key (Json.obj fs) = keyed fs (get "idempotency_key" fs)
take_key j = some (none, j)

unfoldable pub effect_for_key : Effected → Keys.Effect
effect_for_key succeeded = Keys.Effect.succeeded
effect_for_key unknown = Keys.Effect.unknown
effect_for_key _ = Keys.Effect.failed

unfoldable pub reserve_matched : String → Option Intent → Option IntentStore → Option IntentStore
unfolding reserve
reserve_matched rid (some used) (some st) = some (reserve rid used st)
reserve_matched rid _ st = st

module _ (set : Setting) (host : Host) where
  -- `_record`, where an exception is met: whether the record was written
  unfoldable pub write : Record → Broker → Bool × Broker
  write r b =
      if set.can_append b.log then (true, record b { log = b.log ++ r ∷ [] }) else (false, b)

  unfoldable pub settle_matched :
      String → Reconciliation → Option IntentStore → Option Settlement × Option IntentStore
  unfolding settle
  settle_matched rid verdict none = (none, none)
  settle_matched rid verdict (some st) = let (s, st') = settle rid verdict st in (s, some st')

  unfoldable pub is_reserved : String → Option IntentStore → Bool
  unfolding Dict.get
  is_reserved rid none = false
  is_reserved rid (some st) = elim (Dict.get rid st.reserved) [ none ↦ false | some i ↦ true ]

  -- the settlement is recorded before the intent moves
  unfoldable pub settle_recorded :
      Incoming → Reconciliation → Broker → Evidence × Option Settlement × Broker
  unfolding is_reserved settle_matched write settled_record
  settle_recorded req verdict b =
      if not (is_reserved req.rid b.intents)
      then (recorded, none, b)
      else (let (done, b') = write (settled_record req.rid) b in
          let (s, st) = settle_matched req.rid verdict b.intents in
          if done
          then (recorded, s, record b' { intents = st })
          else (settlement_unrecorded, none, b'))

  -- the outcome, the settlement and the key
  unfoldable pub conclude :
      Incoming → Option String → Invocation → Plan → Executed → Broker → Response × Broker
  unfolding effect_of reconciled_with outcome_record write settle_recorded verdict_for_intent
      set_key effect_for_key Keys.state_after
  conclude req key inv plan x b =
      let (verdict, w) = reconciled_with set host plan inv b.world in
      let (done, b') =
        write (outcome_record set host req.rid key inv plan (effect_of x) verdict)
          (record b { world = w }) in
      let (evidence, s, b2) =
        if done
        then settle_recorded req (verdict_for_intent plan verdict (effect_of x)) b'
        else (outcome_unrecorded, none, b') in
      let p : Prior = record {
        rid = req.rid;
        hash = some (set.invocation_hash inv);
        state = Keys.state_after (effect_for_key (effect_of x));
        effect = some (effect_for_key (effect_of x));
      } in
      (performed x (effect_of x) verdict evidence s, record b2 { keys = set_key key p b2.keys })

  unfoldable pub finish :
      Incoming → Option String → Invocation → Plan → Executed × World → Broker → Response × Broker
  unfolding conclude judged_read
  finish req key inv plan (raised, w) b = (escaped, record b { world = w })
  finish req key inv plan (x, w) b =
      conclude req key inv plan (judged_read set host inv b.log x) (record b { world = w })

  unfoldable pub pending : Incoming → Invocation → Prior
  pending req inv = record {
    rid = req.rid;
    hash = some (set.invocation_hash inv);
    state = Keys.pending;
    effect = none;
  }

  -- behind the prepared record: the key is pending, the intent reserved, and the effect is made
  unfoldable pub act :
      Incoming → Option String → Invocation → Plan → Option Intent → Broker → Response × Broker
  unfolding finish pending set_key reserve_matched execute orders_of
  act req key inv plan matched b =
      let b' : Broker = record b {
        keys = set_key key (pending req inv) b.keys;
        intents = reserve_matched req.rid matched b.intents;
      } in
      finish req key inv plan
        (execute host set.fetch (orders_of set host req inv plan) inv b'.world) b'

  -- evidence before effect
  unfoldable pub prepare :
      Incoming
      → Option String
      → Invocation
      → Option Intent
      → Plan × World
      → Broker
      → Response × Broker
  unfolding act has_attested_source write prepared_record
  prepare req key inv matched (plan, w) b =
      if inv.tool == "rename_file" && not (has_attested_source set host plan)
      then (
        source_not_attested,
        (write
            (record (blank decision req.rid) {
              tool = some inv.tool;
              hash = some (set.invocation_hash inv);
              effect = some no_effect;
            })
            (record b { world = w })).1,
      )
      else (let (done, b') =
            write (prepared_record set host req.rid key inv plan) (record b { world = w }) in
          if done then act req key inv plan matched b' else (no_evidence, b'))

  -- an exception while the plan is made leaves `_handle`
  unfoldable pub planned :
      Incoming
      → Option String
      → Invocation
      → Option Intent
      → Outcome Plan
      → Broker
      → Response × Broker
  unfolding prepare
  planned req key inv matched (ok plan, w) b = prepare req key inv matched (plan, w) b
  planned req key inv matched (err e, w) b = (escaped, record b { world = w })

  unfoldable pub hash_of : Option Invocation → Option String
  hash_of none = none
  hash_of (some inv) = some (set.invocation_hash inv)

  -- behind the look-up of the key
  unfoldable pub answer : Incoming → Option String → Decided → Broker → Response × Broker
  unfolding planned plan_of write hash_of
  answer req key d b = elim d.reply [
    | reject failure why ↦
        (let (done, b') =
            write
              (record (blank decision req.rid) {
                tool = d.tool;
                hash = hash_of d.invocation;
                effect = some no_effect;
                key = key;
              })
              b in
          (refused (reject failure why) done, b'))
    | admit ↦ elim d.invocation [
      | none ↦ (escaped, b)
      | some inv ↦ planned req key inv d.matched (plan_of set host req inv b.world) b
    ]
  ]

  unfoldable pub repeated_effect : Answer → Effected
  repeated_effect (Keys.already_applied rid) = already_applied
  repeated_effect _ = no_effect

  -- the look-up of the key, behind the decision
  unfoldable pub decided : Incoming → Option String → Decided → Broker → Response × Broker
  unfolding answer prior write hash_of repeated_effect Keys.duplicate
  decided req key d b = elim (prior key b.keys) [
    | none ↦ answer req key d b
    | some p ↦
        (let a = Keys.duplicate p (hash_of d.invocation) in
          (
            repeated a,
            (write
                (record (blank duplicate req.rid) {
                  tool = d.tool;
                  hash = hash_of d.invocation;
                  effect = some (repeated_effect a);
                })
                b).1,
          ))
  ]

  -- behind the look at the clock
  unfoldable pub handle_message :
      Incoming → Option String → Json → Bool → Broker → Response × Broker
  unfolding decided decide write
  handle_message req key message true b =
      (clock, (write (record (blank decision req.rid) { effect = some no_effect }) b).1)
  handle_message req key message false b =
      let d =
        decide set.normal_url host.sha256 set.sorted req.observed set.exchange set.config req.nonce
          req.revocations message b.intents b.client in
      decided req key d (record b { intents = d.intents; client = d.client })

  -- `Broker._handle`
  unfoldable pub handle : Incoming → Broker → Response × Broker
  unfolding take_key handle_message
  handle req b = elim (take_key req.message) [
    | none ↦ (malformed_key, b)
    | some (key, message) ↦ handle_message req key message req.is_rolled_back b
  ]
