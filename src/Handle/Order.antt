-- ===== src/Handle/Order.antt =====
-- `Broker._handle`: what a request leaves in the log, the keys and the world.
use darm_guard.Prelude.{
  Bool, true, false, not, ◌&&◌, String, ◌≡◌, refl, sym, ◌∙◌, ◌⊎◌, inl, inr, Option, none, some,
  List, [], ◌∷◌, ◌++◌, All, ◌==◌, string_eq, Bool-cases, Option-cases, append-nil, append_assoc,
}
use darm_guard.Json.{Json}
use darm_guard.Registry.{Invocation}
use darm_guard.Intent.{Intent}
use darm_guard.Intent.Store.{IntentStore}
use darm_guard.Journal.{Record, decision, duplicate}
use darm_guard.Keys
use darm_guard.Keys.{prior, set_key}
use darm_guard.Decision.{Decided, Reply, admit, reject, decide}
use darm_guard.Kernel.{Client}
use darm_guard.Effect.{Disk, Outcome}
use darm_guard.Prelude.Result.{ok, err}
use darm_guard.Effect.Replace.{calm}
use darm_guard.Host.{Host}
use darm_guard.Handle.Parts.{
  Incoming, Setting, Plan, plan_of, has_attested_source, blank, prepared_record,
}
use darm_guard.Handle.{
  Broker, Response, take_key, write, prepare, planned, hash_of, answer, decided, handle_message,
  handle,
}
use darm_guard.Handle.Later.{IsLater, write-cases, act-Appends, plan_of-still}

-- a record of a refusal
abbrev pub IsRefusal : String → Record → Type 0
IsRefusal rid r = (r.rid ≡ rid) × ((r.event ≡ decision) ⊎ (r.event ≡ duplicate))

-- What `_handle` may leave of the log, the keys and the world: either nothing but records of a
-- refusal, or the prepared record of an admitted invocation, and then the later records.
pub data IsHandled (set : Setting) (host : Host) (Admits : Option String → Invocation → Type 0)
    (rid : String) (b : Broker) (r : Response × Broker) : Type 0 where
  idle :
      (new : List Record)
      → r.1.log ≡ b.log ++ new
      → All (IsRefusal rid) new
      → r.1.keys ≡ b.keys
      → r.1.world ≡ b.world
      → IsHandled set host Admits rid b r
  acted :
      (key : Option String) (inv : Invocation) (plan : Plan) (rest : List Record)
      → Admits key inv
      → set.can_append b.log ≡ true
      → r.1.log ≡ b.log ++ prepared_record set host rid key inv plan ∷ rest
      → All (IsLater rid) rest
      → IsHandled set host Admits rid b r

module _ (set : Setting) (host : Host) (Admits : Option String → Invocation → Type 0)
    (req : Incoming) where
  -- a refusal, with a record or without
  refused-IsHandled :
      (answer : Bool → Response) (r : Record) (b : Broker)
      → IsRefusal req.rid r
      → IsHandled set host Admits req.rid b (answer (write set host r b).0, (write set host r b).1)
  refused-IsHandled answer r b i = elim (write-cases set host r b) [
    | inl (e, w) ↦ rw w (idle (r ∷ []) refl (i, tt) refl refl)
    | inr w ↦ rw w (idle [] (sym (append-nil b.log)) tt refl refl)
  ]

  prepare-IsHandled :
      (key : Option String) (inv : Invocation) (matched : Option Intent) (plan : Plan) (b : Broker)
      → Admits key inv
      → IsHandled set host Admits req.rid b (prepare set host req key inv matched (plan, b.world) b)
  unfolding prepare blank
  prepare-IsHandled key inv matched plan b a =
      elim (Bool-cases (inv.tool == "rename_file" && not (has_attested_source set host plan))) [
        | inl t ↦
            rw (t, prepare)
              (refused-IsHandled (λ x. Response.source_not_attested) _ b (refl, inl refl))
        | inr t ↦ elim (write-cases set host (prepared_record set host req.rid key inv plan) b) [
          | inl (e, w) ↦
              rw (t, w, prepare)
                (let later = act-Appends set host req key inv plan matched (record b {
                  log = b.log ++ prepared_record set host req.rid key inv plan ∷ [];
                }) in
                  acted key inv plan later.new a e
                    (later.appended
                      ∙ append_assoc b.log (prepared_record set host req.rid key inv plan ∷ [])
                          later.new)
                    later.later)
          | inr w ↦ rw (t, w, prepare) (idle [] (sym (append-nil b.log)) tt refl refl)
        ]
      ]

  planned-IsHandled :
      (key : Option String) (inv : Invocation) (matched : Option Intent) (p : Outcome Plan)
      (b : Broker)
      → Admits key inv
      → p.1 ≡ b.world
      → IsHandled set host Admits req.rid b (planned set host req key inv matched p b)
  unfolding planned
  planned-IsHandled key inv matched (ok plan, w) b a still =
      rw still (prepare-IsHandled key inv matched plan b a)
  planned-IsHandled key inv matched (err e, w) b a still =
      idle [] (sym (append-nil b.log)) tt refl still

  answer-IsHandled :
      (key : Option String) (d : Decided) (b : Broker)
      → ((inv : Invocation) → d.reply ≡ admit → d.invocation ≡ some inv → Admits key inv)
      → ((inv : Invocation) → (plan_of set host req inv b.world).1 ≡ b.world)
      → IsHandled set host Admits req.rid b (answer set host req key d b)
  unfolding answer blank
  answer-IsHandled key d b admits still = go d.reply refl
    where
      invoked :
          (o : Option Invocation)
          → d.invocation ≡ o
          → d.reply ≡ admit
          → IsHandled set host Admits req.rid b (answer set host req key d b)
      invoked none i e = rw (e, i, answer) (idle [] (sym (append-nil b.log)) tt refl refl)
      invoked (some inv) i e =
          rw (e, i, answer)
            (planned-IsHandled key inv d.matched (plan_of set host req inv b.world) b
              (admits inv e i) (still inv))

      go :
          (reply : Reply)
          → d.reply ≡ reply
          → IsHandled set host Admits req.rid b (answer set host req key d b)
      go admit e = invoked d.invocation refl e
      go (reject failure why) e =
          rw (e, answer)
            (refused-IsHandled (λ done. Response.refused (reject failure why) done) _ b
              (refl, inl refl))

  decided-IsHandled :
      (key : Option String) (d : Decided) (b : Broker)
      → ((inv : Invocation)
          → prior key b.keys ≡ none
          → d.reply ≡ admit
          → d.invocation ≡ some inv
          → Admits key inv)
      → ((inv : Invocation) → (plan_of set host req inv b.world).1 ≡ b.world)
      → IsHandled set host Admits req.rid b (decided set host req key d b)
  unfolding decided blank
  decided-IsHandled key d b admits still = elim (Option-cases (prior key b.keys)) [
    | inl n ↦ rw (n, decided) (answer-IsHandled key d b (λ inv. admits inv n) still)
    | inr (p, n) ↦
        rw (n, decided)
          (refused-IsHandled
            (λ done. Response.repeated (Keys.duplicate p (hash_of set host d.invocation))) _ b
            (refl, inr refl))
  ]

-- The decision on the request's message.
abbrev pub decision_on : Setting → Host → Incoming → Json → Broker → Decided
decision_on set host req message b =
    decide set.normal_url host.sha256 set.sorted req.observed set.exchange set.config req.nonce
      req.revocations message b.intents b.client

-- The key is new, and the decision on the message admits the invocation.
pub record IsAdmitted (set : Setting) (host : Host) (req : Incoming) (b : Broker)
    (key : Option String) (inv : Invocation) : Type 0 where
  pub message : Json
  pub is_message : take_key req.message ≡ some (key, message)
  pub is_new : prior key b.keys ≡ none
  pub is_admit : (decision_on set host req message b).reply ≡ admit
  pub is_invocation : (decision_on set host req message b).invocation ≡ some inv

module _ (set : Setting) (host : Host) (req : Incoming) where
  same_parts :
      (b : Broker) (st : Option IntentStore) (client : Client) (r : Response × Broker)
      → IsHandled set host
          (IsAdmitted set host req b)
          req.rid
          (record b { intents = st; client = client })
          r
      → IsHandled set host (IsAdmitted set host req b) req.rid b r
  same_parts b st client r (idle new l i k w) = idle new l i k w
  same_parts b st client r (acted key inv plan rest a e l i) = acted key inv plan rest a e l i

  handle_message-IsHandled :
      (key : Option String) (message : Json) (late : Bool) (b : Broker) (d : Disk)
      → take_key req.message ≡ some (key, message)
      → b.world ≡ calm d
      → IsHandled set host
          (IsAdmitted set host req b)
          req.rid
          b
          (handle_message set host req key message late b)
  unfolding handle_message blank
  handle_message-IsHandled key message true b d n still =
      refused-IsHandled set host (IsAdmitted set host req b) req (λ x. Response.clock) _ b
        (refl, inl refl)
  handle_message-IsHandled key message false b d n still =
      let made = decision_on set host req message b in
      same_parts b made.intents made.client (handle_message set host req key message false b) (
        decided-IsHandled set host (IsAdmitted set host req b) req key made
          (record b { intents = made.intents; client = made.client })
          (λ inv new e i. record {
            message = message;
            is_message = n;
            is_new = new;
            is_admit = e;
            is_invocation = i;
          })
          (λ inv. rw still (plan_of-still set host req inv d)))

  -- Evidence before effect, while no other process acts: a request leaves the world, and the table of
  -- keys, as they were, and appends no record but of a refusal; or its key is new, the decision
  -- admits the invocation, and the log has gained the prepared record of that invocation, which could
  -- be written, and after it only records of the outcome and the settlement.
  pub handle-IsHandled :
      (b : Broker) (d : Disk)
      → b.world ≡ calm d
      → IsHandled set host (IsAdmitted set host req b) req.rid b (handle set host req b)
  unfolding handle
  handle-IsHandled b d still = elim (Option-cases (take_key req.message)) [
    | inl n ↦ rw (n, handle) (idle [] (sym (append-nil b.log)) tt refl refl)
    | inr ((key, message), n) ↦
        rw (n, handle) (handle_message-IsHandled key message req.is_rolled_back b d n still)
  ]
