-- ===== src/Handle/Attempts.antt =====
-- The part of the handler behind the look-up of the key, as an attempt of the model of the keys.
use darm_guard.Prelude.{
  Bool, true, false, not, ◌&&◌, String, ◌≡◌, ◌≢◌, refl, sym, ap, ◌∙◌, inl, inr, Option, none, some,
  [], ◌∷◌, ◌++◌, ◌==◌, string_eq, option_eq, Bool-cases, if◌then◌else◌,
}
use darm_guard.Prelude.Dict.{Dict, put-put}
use darm_guard.Registry.{Invocation}
use darm_guard.Intent.{Intent}
use darm_guard.Intent.Store.{Reconciliation}
use darm_guard.Journal.{Record}
use darm_guard.Keys
use darm_guard.Keys.{
  Prior, Attempt, Answer, Effect, is_malformed, prior, set_key, perform, look_up, handle_key,
  duplicate,
}
use darm_guard.Decision.{Decided, Reply, admit, reject}
use darm_guard.Effect.{World, Outcome}
use darm_guard.Prelude.Result.{ok, err}
use darm_guard.Host.{Host}
use darm_guard.Execute.{Executed, raised, execute}
use darm_guard.Handle.Parts.{
  Incoming, Setting, Plan, plan_of, has_attested_source, orders_of, judged_read, effect_of,
  reconciled_with, prepared_record, outcome_record, verdict_for_intent, settled_record,
}
use darm_guard.Handle.{
  Broker, Response, escaped, effect_for_key, reserve_matched, write, is_reserved, settle_recorded,
  conclude, finish, act, prepare, planned, pending, answer, hash_of,
}
use darm_guard.Handle.Later.{write-cases}

-- the effect that an answer reports, if something was performed
abbrev pub effect_in_answer : Answer → Option Effect
effect_in_answer (Keys.performed e) = some e
effect_in_answer _ = none

abbrev pub effect_in_response : Response → Option Effect
effect_in_response (Response.performed x e v evidence s) = some (effect_for_key e)
effect_in_response _ = none

-- The answer of the handling of keys that the agent sees: a rename whose source is not attested
-- counts as refused. A response to the clock and an exception are none.
abbrev pub answer_of : Response → Option Answer
answer_of Response.malformed_key = some Keys.malformed_key
answer_of Response.clock = none
answer_of Response.escaped = none
answer_of Response.source_not_attested = some Keys.refused
answer_of Response.no_evidence = some Keys.unrecorded
answer_of (Response.repeated a) = some a
answer_of (Response.refused reply recorded) = some Keys.refused
answer_of (Response.performed x e v evidence s) = some (Keys.performed (effect_for_key e))

set_key-set_key :
    (key : Option String) (p q : Prior) (d : Dict Prior)
    → set_key key q (set_key key p d) ≡ set_key key q d
unfolding set_key
set_key-set_key none p q d = refl
set_key-set_key (some k) p q d = put-put k p q d

-- An attempt whose part behind the look-up explains the answer and the keys.
pub record Explains (key : Option String) (req : Incoming) (hash : Option String)
    (keys : Dict Prior) (r : Response × Broker) : Type 0 where
  pub attempt : Attempt
  pub named : attempt.key ≡ key
  pub numbered : attempt.rid ≡ req.rid
  pub hashed : attempt.hash ≡ hash
  pub answers : some (perform attempt keys).0 ≡ answer_of r.0
  pub effects : effect_in_answer (perform attempt keys).0 ≡ effect_in_response r.0
  pub leaves : (perform attempt keys).1 ≡ r.1.keys

abbrev pub stopped : Option String → Incoming → Option String → Bool → Attempt
stopped key req hash admitted = record {
  key = key;
  rid = req.rid;
  hash = hash;
  admitted = admitted;
  prepared = false;
  effect = Keys.Effect.failed;
}

abbrev completed : Option String → Incoming → Option String → Effect → Attempt
completed key req hash effect = record {
  key = key;
  rid = req.rid;
  hash = hash;
  admitted = true;
  prepared = true;
  effect = effect;
}

module _ (set : Setting) (host : Host) (req : Incoming) where
  pub write-keys : (r : Record) (b : Broker) → (write set host r b).1.keys ≡ b.keys
  write-keys r b = elim (write-cases set host r b) [ inl (e, w) ↦ rw w refl | inr w ↦ rw w refl ]

  settle_recorded-keys :
      (v : Reconciliation) (b : Broker) → (settle_recorded set host req v b).2.keys ≡ b.keys
  unfolding settle_recorded
  settle_recorded-keys v b = elim (Bool-cases (is_reserved set host req.rid b.intents)) [
    | inr n ↦ rw n refl
    | inl n ↦ elim (write-cases set host (settled_record req.rid) b) [
      | inl (e, w) ↦ rw (n, w) refl
      | inr w ↦ rw (n, w) refl
    ]
  ]

  conclude-keys :
      (key : Option String) (inv : Invocation) (plan : Plan) (x : Executed) (b : Broker)
      → (conclude set host req key inv plan x b).1.keys
        ≡ set_key key
            (record {
              rid = req.rid;
              hash = some (set.invocation_hash inv);
              state = Keys.state_after (effect_for_key (effect_of x));
              effect = some (effect_for_key (effect_of x));
            })
            b.keys
  unfolding conclude
  conclude-keys key inv plan x b =
      let (verdict, w) = reconciled_with set host plan inv b.world in
      let r = outcome_record set host req.rid key inv plan (effect_of x) verdict in
      let c : Broker = record b { world = w } in
      elim (write-cases set host r c) [
        | inl (e, h) ↦ rw h (
            ap (set_key key _) (
              settle_recorded-keys (verdict_for_intent plan verdict (effect_of x))
                (record c { log = _ })))
        | inr h ↦ rw h refl
      ]

  concluded-Explains :
      (key : Option String) (inv : Invocation) (plan : Plan) (x : Executed)
      (matched : Option Intent) (w : World) (b : Broker)
      → Explains key req (some (set.invocation_hash inv)) b.keys (
          conclude set host req key inv plan x (record b {
            keys = set_key key (pending set host req inv) b.keys;
            intents = reserve_matched req.rid matched b.intents;
            world = w;
          }))
  unfolding conclude perform
  concluded-Explains key inv plan x matched w b = record {
    attempt = completed key req (some (set.invocation_hash inv)) (effect_for_key (effect_of x));
    named = refl;
    numbered = refl;
    hashed = refl;
    answers = refl;
    effects = refl;
    leaves =
        sym (
          conclude-keys key inv plan x _ ∙ set_key-set_key key (pending set host req inv) _ b.keys);
  }

  finish-Explains :
      (key : Option String) (inv : Invocation) (plan : Plan) (matched : Option Intent)
      (x : Executed) (w : World) (b : Broker)
      → (let c : Broker = record b {
        keys = set_key key (pending set host req inv) b.keys;
        intents = reserve_matched req.rid matched b.intents;
      } in
          (finish set host req key inv plan (x, w) c).0 ≢ escaped
          → Explains key req
              (some (set.invocation_hash inv))
              b.keys
              (finish set host req key inv plan (x, w) c))
  unfolding finish
  finish-Explains key inv plan matched x w b = go x
    where
      c : Broker
      c = record b {
        keys = set_key key (pending set host req inv) b.keys;
        intents = reserve_matched req.rid matched b.intents;
      }

      judged :
          (x : Executed)
          → Explains key req (some (set.invocation_hash inv)) b.keys (
              conclude set host req key inv plan
                (judged_read set host inv b.log x)
                (record c { world = w }))
      judged x = concluded-Explains key inv plan (judged_read set host inv b.log x) matched w b

      go :
          (x : Executed)
          → (finish set host req key inv plan (x, w) c).0 ≢ escaped
          → Explains key req
              (some (set.invocation_hash inv))
              b.keys
              (finish set host req key inv plan (x, w) c)
      go raised n = absurd (n refl)
      go (Executed.failed p) n = judged (Executed.failed p)
      go (Executed.content t a) n = judged (Executed.content t a)
      go (Executed.written k a) n = judged (Executed.written k a)
      go (Executed.renamed a) n = judged (Executed.renamed a)
      go Executed.deleted n = judged Executed.deleted
      go (Executed.entries l) n = judged (Executed.entries l)
      go (Executed.fetched f) n = judged (Executed.fetched f)

  act-Explains :
      (key : Option String) (inv : Invocation) (plan : Plan) (matched : Option Intent) (b : Broker)
      → (act set host req key inv plan matched b).0 ≢ escaped
      → Explains key req
          (some (set.invocation_hash inv))
          b.keys
          (act set host req key inv plan matched b)
  unfolding act
  act-Explains key inv plan matched b n =
      let result = execute host set.fetch (orders_of set host req inv plan) inv b.world in
      finish-Explains key inv plan matched result.0 result.1 b n

  -- an answer that leaves the keys alone, and reports no effect
  idle-Explains :
      (key hash : Option String) (admitted : Bool) (keys : Dict Prior) (r : Response × Broker)
      → answer_of r.0 ≡ some (if admitted then Keys.unrecorded else Keys.refused)
      → effect_in_response r.0 ≡ none
      → r.1.keys ≡ keys
      → Explains key req hash keys r
  unfolding perform
  idle-Explains key hash admitted keys r o e k = record {
    attempt = stopped key req hash admitted;
    named = refl;
    numbered = refl;
    hashed = refl;
    answers = go admitted o;
    effects = elim (Bool-cases admitted) [ inl t ↦ rw t (sym e) | inr t ↦ rw t (sym e) ];
    leaves = elim (Bool-cases admitted) [ inl t ↦ rw t (sym k) | inr t ↦ rw t (sym k) ];
  }
    where
      go :
          (admitted : Bool)
          → answer_of r.0 ≡ some (if admitted then Keys.unrecorded else Keys.refused)
          → some (perform (stopped key req hash admitted) keys).0 ≡ answer_of r.0
      go true o = sym o
      go false o = sym o

  prepare-Explains :
      (key : Option String) (inv : Invocation) (matched : Option Intent) (p : Plan × World)
      (b : Broker)
      → (prepare set host req key inv matched p b).0 ≢ escaped
      → Explains key req
          (some (set.invocation_hash inv))
          b.keys
          (prepare set host req key inv matched p b)
  unfolding prepare
  prepare-Explains key inv matched (plan, w) b n =
      elim (Bool-cases (inv.tool == "rename_file" && not (has_attested_source set host plan))) [
        | inl t ↦
            rw (t, prepare)
              (idle-Explains key _ false b.keys _ refl refl (write-keys _ (record b { world = w })))
        | inr t ↦
            elim (write-cases set host (prepared_record set host req.rid key inv plan)
              (record b { world = w })) [
                | inr h ↦ rw (t, h, prepare) (idle-Explains key _ true b.keys _ refl refl refl)
                | inl (e, h) ↦
                    rw (t, h, prepare)
                      (act-Explains key inv plan matched
                        (record b {
                          world = w;
                          log = b.log ++ prepared_record set host req.rid key inv plan ∷ [];
                        })
                        (rw (t, h, prepare) at n))
              ]
      ]

  planned-Explains :
      (key : Option String) (inv : Invocation) (matched : Option Intent) (p : Outcome Plan)
      (b : Broker)
      → (planned set host req key inv matched p b).0 ≢ escaped
      → Explains key req
          (some (set.invocation_hash inv))
          b.keys
          (planned set host req key inv matched p b)
  unfolding planned
  planned-Explains key inv matched (ok plan, w) b n = prepare-Explains key inv matched (plan, w) b n
  planned-Explains key inv matched (err e, w) b n = absurd (n refl)

  pub answer-Explains :
      (key : Option String) (d : Decided) (b : Broker)
      → (answer set host req key d b).0 ≢ escaped
      → Explains key req (hash_of set host d.invocation) b.keys (answer set host req key d b)
  unfolding answer hash_of
  answer-Explains key d b n = go d.reply refl
    where
      invoked :
          (o : Option Invocation)
          → d.invocation ≡ o
          → d.reply ≡ admit
          → Explains key req (hash_of set host d.invocation) b.keys (answer set host req key d b)
      invoked none i e = absurd (n (rw (e, i, answer) refl))
      invoked (some inv) i e =
          rw (e, i, answer)
            (planned-Explains key inv d.matched (plan_of set host req inv b.world) b
              (rw (e, i, answer) at n))

      go :
          (reply : Reply)
          → d.reply ≡ reply
          → Explains key req (hash_of set host d.invocation) b.keys (answer set host req key d b)
      go admit e = invoked d.invocation refl e
      go (reject failure why) e =
          rw (e, answer) (idle-Explains key _ false b.keys _ refl refl (write-keys _ b))
