-- ===== src/Handle/Later.antt =====
-- `Broker._handle`: what is appended behind the prepared record, and the calls that only observe.
use darm_guard.Prelude.{
  Bool, true, false, String, ◌≡◌, refl, sym, ap, ◌∙◌, ◌⊎◌, inl, inr, Option, none, some, List, [],
  ◌∷◌, ◌++◌, All, ◌==◌, string_eq, Bool-cases, append-nil, append_assoc,
}
use darm_guard.Prelude.Dict
use darm_guard.Prelude.Dict.{Dict}
use darm_guard.Prelude.Result.{ok, err}
use darm_guard.Registry.{Invocation}
use darm_guard.Intent.{Intent, Observed}
use darm_guard.Reconcile.{args_dict, intended_state}
use darm_guard.Intent.Store.{Reconciliation}
use darm_guard.Journal.{Record, outcome, other}
use darm_guard.Keys.{set_key}
use darm_guard.Effect.{Disk, World, Outcome, turn, act as others_act, left}
use darm_guard.Effect.Replace.{calm}
use darm_guard.Effect.Calls.{leaf_state-calm}
use darm_guard.Host.{
  Host, Opened, slot, missing_directory, unopened, refused, as_text, raw_attestation, observe,
  observe_opened, observed_of, read_attestation, or_empty,
}
use darm_guard.Execute.{Executed, raised, execute}
use darm_guard.Handle.Parts.{
  Incoming, Setting, Plan, plan_of, plan_effect, plan_observed, renaming, is_barred, plan_rename,
  attestation_of_path, attestation_at, moved_state, orders_of, judged_read, effect_of,
  reconciled_with, blank, prepared_record, outcome_record, settled_record, verdict_for_intent,
}
use darm_guard.Handle.{
  Broker, write, is_reserved, settle_recorded, conclude, finish, act, pending, reserve_matched,
}

-- a record that may follow the prepared one
abbrev pub IsLater : String → Record → Type 0
IsLater rid r = (r.rid ≡ rid) × ((r.event ≡ outcome) ⊎ (r.event ≡ other))

pub record Appends (rid : String) (before after : List Record) : Type 0 where
  pub new : List Record
  pub appended : after ≡ before ++ new
  pub later : All (IsLater rid) new

Appends-none : (rid : String) (l : List Record) → Appends rid l l
Appends-none rid l = record { new = []; appended = sym (append-nil l); later = tt }

Appends-after :
    (rid : String) (l m : List Record) (r : Record)
    → IsLater rid r
    → Appends rid (l ++ r ∷ []) m
    → Appends rid l m
Appends-after rid l m r i a = record {
  new = r ∷ a.new;
  appended = a.appended ∙ append_assoc l (r ∷ []) a.new;
  later = (i, a.later);
}

module _ (set : Setting) (host : Host) where
  pub write-cases :
      (r : Record) (b : Broker)
      → ((set.can_append b.log ≡ true)
          × (write set host r b ≡ (true, record b { log = b.log ++ r ∷ [] })))
        ⊎ (write set host r b ≡ (false, b))
  unfolding write
  write-cases r b = elim (Bool-cases (set.can_append b.log)) [
    | inl e ↦ inl (e, rw e refl)
    | inr e ↦ inr (rw e refl)
  ]

  settle_recorded-Appends :
      (req : Incoming) (v : Reconciliation) (b : Broker)
      → Appends req.rid b.log (settle_recorded set host req v b).2.log
  unfolding settle_recorded settled_record blank
  settle_recorded-Appends req v b = elim (Bool-cases (is_reserved set host req.rid b.intents)) [
    | inr n ↦ rw n (Appends-none req.rid b.log)
    | inl n ↦ elim (write-cases (settled_record req.rid) b) [
      | inl (e, w) ↦
          rw (n, w)
            (Appends-after req.rid b.log (b.log ++ settled_record req.rid ∷ [])
              (settled_record req.rid) (refl, inr refl)
              (Appends-none req.rid (b.log ++ settled_record req.rid ∷ [])))
      | inr w ↦ rw (n, w) (Appends-none req.rid b.log)
    ]
  ]

  conclude-Appends :
      (req : Incoming) (key : Option String) (inv : Invocation) (plan : Plan) (x : Executed)
      (b : Broker)
      → Appends req.rid b.log (conclude set host req key inv plan x b).1.log
  unfolding conclude outcome_record prepared_record blank
  conclude-Appends req key inv plan x b =
      let (verdict, w) = reconciled_with set host plan inv b.world in
      let r = outcome_record set host req.rid key inv plan (effect_of x) verdict in
      let c : Broker = record b { world = w } in
      elim (write-cases r c) [
        | inl (e, h) ↦ rw h (
            Appends-after req.rid b.log _ r (refl, inl refl)
              (settle_recorded-Appends req (verdict_for_intent plan verdict (effect_of x))
                (record c { log = b.log ++ r ∷ [] })))
        | inr h ↦ rw h (Appends-none req.rid b.log)
      ]

  judged-Appends :
      (req : Incoming) (key : Option String) (inv : Invocation) (plan : Plan) (x : Executed)
      (w : World) (b : Broker)
      → Appends req.rid b.log
          (conclude set host req key inv plan
            (judged_read set host inv b.log x)
            (record b { world = w })).1.log
  judged-Appends req key inv plan x w b =
      conclude-Appends req key inv plan (judged_read set host inv b.log x) (record b { world = w })

  finish-Appends :
      (req : Incoming) (key : Option String) (inv : Invocation) (plan : Plan) (x : Executed)
      (w : World) (b : Broker)
      → Appends req.rid b.log (finish set host req key inv plan (x, w) b).1.log
  unfolding finish
  finish-Appends req key inv plan raised w b = Appends-none req.rid b.log
  finish-Appends req key inv plan (Executed.failed p) w b =
      judged-Appends req key inv plan (Executed.failed p) w b
  finish-Appends req key inv plan (Executed.content t a) w b =
      judged-Appends req key inv plan (Executed.content t a) w b
  finish-Appends req key inv plan (Executed.written n a) w b =
      judged-Appends req key inv plan (Executed.written n a) w b
  finish-Appends req key inv plan (Executed.renamed a) w b =
      judged-Appends req key inv plan (Executed.renamed a) w b
  finish-Appends req key inv plan Executed.deleted w b =
      judged-Appends req key inv plan Executed.deleted w b
  finish-Appends req key inv plan (Executed.entries l) w b =
      judged-Appends req key inv plan (Executed.entries l) w b
  finish-Appends req key inv plan (Executed.fetched f) w b =
      judged-Appends req key inv plan (Executed.fetched f) w b

  pub act-Appends :
      (req : Incoming) (key : Option String) (inv : Invocation) (plan : Plan)
      (matched : Option Intent) (b : Broker)
      → Appends req.rid b.log (act set host req key inv plan matched b).1.log
  unfolding act
  act-Appends req key inv plan matched b =
      let result = execute host set.fetch (orders_of set host req inv plan) inv b.world in
      finish-Appends req key inv plan result.0 result.1 (record b {
        keys = set_key key (pending set host req inv) b.keys;
        intents = reserve_matched req.rid matched b.intents;
      })

  -- no other process acts, so that observing changes nothing
  observe-still : (path : String) (d : Disk) → (observe host path (calm d)).1 ≡ calm d
  unfolding observe
  observe-still path d = go (host.opened path)
    where
      go : (o : Opened) → (observe_opened host o (calm d)).1 ≡ calm d
      go missing_directory = refl
      go unopened = refl
      go (refused why) = refl
      go (slot name) = ap (λ x. (observed_of host x).1) (leaf_state-calm host.sha256 name _ d refl)

  as_text-still : (a : Option String) (w : World) → (as_text host a w).1 ≡ w
  unfolding as_text
  as_text-still none w = refl
  as_text-still (some bytes) w = elim (Bool-cases (host.is_text bytes)) [
    | inl t ↦ rw t refl
    | inr t ↦ rw t refl
  ]

  attestation_of_path-still :
      (path : String) (d : Disk) → (attestation_of_path set host path (calm d)).1 ≡ calm d
  unfolding attestation_of_path attestation_at read_attestation raw_attestation turn others_act left
  attestation_of_path-still path d = go (host.opened path)
    where
      go : (o : Opened) → (attestation_at set host o (calm d)).1 ≡ calm d
      go missing_directory = refl
      go unopened = refl
      go (refused why) = refl
      go (slot name) = as_text-still _ (calm d)

  plan_observed-world :
      (path : String) (i : Observed) (raised : Bool) (o : Observed × World)
      → (plan_observed set host path i raised o).1 ≡ o.1
  unfolding plan_observed
  plan_observed-world path i true o = refl
  plan_observed-world path i false o = refl

  renaming-world : (plan : Plan) (o : Outcome (Option String)) → (renaming set host plan o).1 ≡ o.1
  unfolding renaming
  renaming-world plan (ok a, w) = refl
  renaming-world plan (err e, w) = refl

  pub plan_of-still :
      (req : Incoming) (inv : Invocation) (d : Disk)
      → (plan_of set host req inv (calm d)).1 ≡ calm d
  unfolding plan_of plan_effect plan_rename
  plan_of-still req inv d = elim (Bool-cases (inv.tool == "rename_file")) [
    | inl t ↦
        rw (t, plan_of)
          (renames (args_dict inv.args []) (is_barred set host (args_dict inv.args [])))
    | inr t ↦ rw (t, plan_of) (others (args_dict inv.args []) (intended_state host.sha256 inv))
  ]
    where
      others :
          (args : Dict String) (o : Option Observed)
          → (plan_effect set host args o (calm d)).1 ≡ calm d
      others args none = refl
      others args (some i) =
          plan_observed-world _ _ _ _ ∙ observe-still (or_empty (Dict.get "path" args)) d

      renames :
          (args : Dict String) (barred : Bool)
          → (plan_rename set host req args barred (calm d)).1 ≡ calm d
      renames args true = refl
      renames args false =
          let src = or_empty (Dict.get "path" args) in
          let dst = or_empty (Dict.get "destination" args) in
          renaming-world
            (record {
              intended = some (moved_state (observe host src (calm d)).0);
              before = some (observe host src (calm d)).0;
              target = some dst;
              source = some src;
              destination_before = some (observe host dst (observe host src (calm d)).1).0;
              private = some (req.private_name src);
              source_attestation = none;
            })
            _
          ∙ ap (λ w. (attestation_of_path set host src (observe host dst w).1).1)
              (observe-still src d)
          ∙ ap (λ w. (attestation_of_path set host src w).1) (observe-still dst d)
          ∙ attestation_of_path-still src d
