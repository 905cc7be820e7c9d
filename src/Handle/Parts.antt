-- ===== src/Handle/Parts.antt =====
-- darm_guard/broker.py, the parts of `Broker._handle` that read: what is recorded before an effect,
-- and what is made of its result.
use darm_guard.Prelude.{
  Bool, true, false, not, ◌&&◌, ◌||◌, String, Option, none, some, List, [], ◌==◌, string_eq,
  option_eq, if◌then◌else◌,
}
use darm_guard.Prelude.Dict
use darm_guard.Prelude.Dict.{Dict}
use darm_guard.Prelude.Result.{Result, ok, err}
use darm_guard.Json.{Json}
use darm_guard.Registry.{Invocation}
use darm_guard.Intent.{Observed, absent, present, unavailable}
use darm_guard.Intent.Store.{Reconciliation, confirmed_success, confirmed_failure, unresolved}
use darm_guard.Attest.{Raw, Keys, Checked, latest, read_verdict, is_attributed, sign}
use darm_guard.Journal.{
  Event, prepared, outcome, other, Record, Effected, succeeded, failed, unknown, latest_entries,
}
use darm_guard.Reconcile.{args_dict, intended_state, reconcile, reconcile_rename}
use darm_guard.Decision.{Config}
use darm_guard.Kernel.{Request, Exchange}
use darm_guard.Fetch
use darm_guard.Fetch.{Fetched}
use darm_guard.Effect.{World, Outcome, no_workspace}
use darm_guard.Host.{Host, Opened, slot, unopened, raises, Io, read_attestation, observe, or_empty}
use darm_guard.Recovery.{checked}
use darm_guard.Execute.{Executed, content, fetched, raised, refused_read, Orders}

-- What a request brings, and what is drawn or read while it is handled: its message, its id, whether
-- the clock is behind the log, the nonce for the kernel, the revocations, the workspace as the
-- premises of intents see it, the private name of a rename and those that `_execute` makes up.
pub record Incoming : Type 0 where
  pub message : Json
  pub rid : String
  pub is_rolled_back : Bool
  pub nonce : String
  pub revocations : Option (List String)
  pub observed : String → Observed
  pub private_name : String → String
  pub fresh : String → String

-- What the broker is set up with; `can_append` says whether the log takes one more record.
pub record Setting : Type 0 where
  pub config : Config
  pub normal_url : String → Bool
  pub sorted : List String → List String
  pub exchange : Request → String → Exchange
  pub fetch : String → Fetched
  pub invocation_hash : Invocation → String
  pub can_append : List Record → Bool
  pub manifest : Option (List (List String))
  pub requires_attestation : Bool

-- what is recorded before the effect
pub record Plan : Type 0 where
  pub intended : Option Observed
  pub before : Option Observed
  pub target : Option String
  pub source : Option String
  pub destination_before : Option Observed
  pub private : Option String
  pub source_attestation : Option String

unfoldable pub no_plan : Plan
no_plan = record {
  intended = none;
  before = none;
  target = none;
  source = none;
  destination_before = none;
  private = none;
  source_attestation = none;
}

-- what a rename means to leave at its destination
unfoldable pub moved_state : Observed → Observed
moved_state (present d) = present d
moved_state _ = unavailable "source is not a present regular file"

-- the second component of an observed state
unfoldable pub detail : Observed → Option String
detail absent = none
detail (present d) = some d
detail (unavailable why) = some why

unfoldable pub blank : Event → String → Record
blank event rid = record {
  event = event;
  rid = rid;
  tool = none;
  hash = none;
  effect = none;
  reconciliation = none;
  target = none;
  source = none;
  private = none;
  before = none;
  intended = none;
  destination_before = none;
  source_attestation = none;
  key = none;
}

-- what the log's readers see of a text that may be empty
abbrev pub non_empty : Option String → Option String
non_empty none = none
non_empty (some t) = if t == "" then none else some t

unfoldable pub effect_of : Executed → Effected
effect_of (Executed.failed p) = failed
effect_of raised = unknown
effect_of (fetched (Fetch.succeeded server c)) = succeeded
effect_of (fetched (Fetch.unknown server)) = unknown
effect_of (fetched _) = failed
effect_of _ = succeeded

-- the intent's verdict, where no state was intended
unfoldable pub verdict_of_effect : Effected → Reconciliation
verdict_of_effect succeeded = confirmed_success
verdict_of_effect unknown = unresolved
verdict_of_effect _ = confirmed_failure

unfoldable pub verdict_for_intent : Plan → Option Reconciliation → Effected → Reconciliation
unfolding verdict_of_effect
verdict_for_intent plan none e = verdict_of_effect e
verdict_for_intent plan (some v) e = v

-- the record of a settlement
unfoldable pub settled_record : String → Record
unfolding blank
settled_record rid = blank other rid

module _ (set : Setting) (host : Host) where
  unfoldable pub attestation_at : Opened → Io (Option String)
  unfolding read_attestation
  attestation_at (slot name) w = read_attestation host name w
  attestation_at unopened w = (err no_workspace, w)
  attestation_at o w = (ok none, w)

  -- `_read_attestation`
  unfoldable pub attestation_of_path : String → Io (Option String)
  unfolding attestation_at
  attestation_of_path path w = attestation_at (host.opened path) w

  unfoldable pub plan_observed : String → Observed → Bool → Observed × World → Outcome Plan
  unfolding no_plan
  plan_observed path intended true (before, w) = (err no_workspace, w)
  plan_observed path intended false (before, w) = (
    ok (record no_plan { intended = some intended; before = some before; target = some path }),
    w,
  )

  unfoldable pub plan_effect : Dict String → Option Observed → Io Plan
  unfolding no_plan plan_observed observe raises Dict.get
  plan_effect args none w = (ok no_plan, w)
  plan_effect args (some intended) w =
      let path = or_empty (Dict.get "path" args) in
      plan_observed path intended (raises (host.opened path)) (observe host path w)

  -- the plan of a rename, once its source's attestation is read
  unfoldable pub renaming : Plan → Outcome (Option String) → Outcome Plan
  renaming plan (ok att, w) = (ok (record plan { source_attestation = att }), w)
  renaming plan (err e, w) = (err e, w)

  unfoldable pub plan_rename : Incoming → Dict String → Bool → Io Plan
  unfolding observe moved_state attestation_of_path renaming Dict.get
  plan_rename req args true w = (err no_workspace, w)
  plan_rename req args false w =
      let src = or_empty (Dict.get "path" args) in
      let dst = or_empty (Dict.get "destination" args) in
      let (before, w1) = observe host src w in
      let (there, w2) = observe host dst w1 in
      renaming
        (record {
          intended = some (moved_state before);
          before = some before;
          target = some dst;
          source = some src;
          destination_before = some there;
          private = some (req.private_name src);
          source_attestation = none;
        })
        (attestation_of_path src w2)

  -- the workspace cannot be opened for the source or the target
  unfoldable pub is_barred : Dict String → Bool
  unfolding raises Dict.get
  is_barred args =
      raises (host.opened (or_empty (Dict.get "path" args)))
      || raises (host.opened (or_empty (Dict.get "destination" args)))

  -- from the prepared state to the private name; `err` is an exception, which nothing catches
  unfoldable pub plan_of : Incoming → Invocation → Io Plan
  unfolding plan_effect plan_rename args_dict intended_state is_barred
  plan_of req inv w =
      if inv.tool == "rename_file"
      then plan_rename req (args_dict inv.args []) (is_barred (args_dict inv.args [])) w
      else plan_effect (args_dict inv.args []) (intended_state host.sha256 inv) w

  unfoldable pub attested_as : Plan → Option Checked → Bool
  unfolding detail
  attested_as plan none = false
  attested_as plan (some a) =
      a.target == or_empty plan.source
      && some a.digest == elim plan.before [ none ↦ none | some o ↦ detail o ]

  -- the source of a rename carries a valid attestation for its path and its content, if there is a key
  unfoldable pub has_attested_source : Plan → Bool
  unfolding attested_as checked
  has_attested_source plan = elim host.keys [
    | none ↦ true
    | some keys ↦ attested_as plan (checked host plan.source_attestation)
  ]

  unfoldable pub attest_with :
      Option Keys → String → Plan → Option (String → Result (Unit {0}) String)
  unfolding sign
  attest_with (some keys) rid plan = elim plan.intended [
    | none ↦ none
    | some i ↦ some (λ d. elim (sign host.scheme keys.ring rid (or_empty plan.target) d) [
      | ok raw ↦ ok (host.encode raw)
      | err why ↦ err tt
    ])
  ]
  attest_with none rid plan = none

  unfoldable pub orders_of : Incoming → Invocation → Plan → Orders
  unfolding attest_with
  orders_of req inv plan = record {
    expected = plan.before;
    attest = attest_with host.keys req.rid plan;
    private = plan.private;
    old_att = plan.source_attestation;
    fresh = req.fresh;
  }

  -- a read is judged by its attestation and the log
  unfoldable pub judged_read : Invocation → List Record → Executed → Executed
  unfolding read_verdict args_dict latest_entries Dict.get
  judged_read inv log (content text raw) =
      let path = or_empty (Dict.get "path" (args_dict inv.args [])) in
      let last = latest (Dict.get path (latest_entries log).0) in
      let decoded : Option Raw = elim raw [ none ↦ none | some bytes ↦ some (host.decode bytes) ] in
      if set.requires_attestation
        && not (
            is_attributed (
              read_verdict host.scheme host.hmac host.keys path (host.sha256 text) decoded
                set.manifest last))
      then Executed.failed refused_read
      else content text raw
  judged_read inv log x = x

  -- the state of the target after the effect, against what was recorded
  unfoldable pub reconciled_with : Plan → Invocation → World → Option Reconciliation × World
  unfolding observe reconcile reconcile_rename
  reconciled_with plan inv w = elim plan.intended [
    | none ↦ (none, w)
    | some intended ↦
        (let (now, w1) = observe host (or_empty plan.target) w in
          if inv.tool == "rename_file"
          then (let (source_now, w2) = observe host (or_empty plan.source) w1 in
              (
                some (
                    reconcile_rename (elim plan.before [ none ↦ absent | some o ↦ o ])
                      (elim plan.destination_before [ none ↦ absent | some o ↦ o ]) intended
                      source_now now),
                w2,
              ))
          else (some (reconcile plan.before (some intended) now), w1))
  ]

  -- `_record` with the event `prepared`
  unfoldable pub prepared_record : String → Option String → Invocation → Plan → Record
  unfolding blank
  prepared_record rid key inv plan = record (blank prepared rid) {
    tool = some inv.tool;
    hash = some (set.invocation_hash inv);
    target = non_empty plan.target;
    source = non_empty plan.source;
    private = plan.private;
    before = plan.before;
    intended = plan.intended;
    destination_before = plan.destination_before;
    source_attestation = plan.source_attestation;
    key = key;
  }

  -- `_record` with the event `outcome`
  unfoldable pub outcome_record :
      String → Option String → Invocation → Plan → Effected → Option Reconciliation → Record
  unfolding prepared_record
  outcome_record rid key inv plan effect verdict = record (prepared_record rid key inv plan) {
    event = outcome;
    effect = some effect;
    reconciliation = verdict;
  }
