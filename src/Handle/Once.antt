-- ===== src/Handle/Once.antt =====
-- `Broker._handle` and the idempotency keys: the handler against the model of the keys alone.
use darm_guard.Prelude.{
  Bool, true, false, String, ◌≡◌, ◌≢◌, refl, sym, ap, ◌∙◌, ◌⊎◌, inl, inr, Option, none, some, ◌==◌,
  string_eq, option_eq, Bool-cases, Option-cases,
}
use darm_guard.Prelude.Dict.{Dict}
use darm_guard.Json.{Json, Fields, get}
use darm_guard.Keys
use darm_guard.Keys.{
  Prior, Attempt, Answer, Effect, is_malformed, prior, set_key, perform, look_up, handle_key,
  duplicate,
}
use darm_guard.Decision.{Decided}
use darm_guard.Host.{Host}
use darm_guard.Handle.Parts.{Incoming, Setting}
use darm_guard.Handle.{
  Broker, Response, escaped, hash_of, text_key, keyed, take_key, answer, decided, handle_message,
  handle,
}
use darm_guard.Handle.Order.{decision_on}
use darm_guard.Handle.Attempts.{
  effect_in_answer, effect_in_response, answer_of, Explains, stopped, write-keys, answer-Explains,
}

-- An attempt that explains the answer and the keys: with the request's key and id and the hash of
-- the invocation that was decided on, its handling gives the answer, an effect is answered exactly if
-- it is performed, and the keys are those that the handling of keys leaves.
pub record IsExplained (key : Option String) (req : Incoming) (hash : Option String)
    (keys : Dict Prior) (r : Response × Broker) : Type 0 where
  pub attempt : Attempt
  pub named : attempt.key ≡ key
  pub numbered : attempt.rid ≡ req.rid
  pub hashed : attempt.hash ≡ hash
  pub answers : some (handle_key attempt keys).0 ≡ answer_of r.0
  pub effects : effect_in_answer (handle_key attempt keys).0 ≡ effect_in_response r.0
  pub leaves : (handle_key attempt keys).1 ≡ r.1.keys

effect_in-duplicate : (p : Prior) (h : Option String) → effect_in_answer (duplicate p h) ≡ none
unfolding duplicate
effect_in-duplicate p none = refl
effect_in-duplicate p (some h) = elim (Bool-cases (p.hash == some h)) [
  | inr e ↦ rw (e, duplicate) refl
  | inl e ↦ rw (e, duplicate) (go p.state)
]
  where
    go :
        (s : Keys.State)
        → effect_in_answer (elim s [
          | Keys.done ↦ Keys.already_applied p.rid
          | Keys.dead ↦ Keys.earlier_failed
          | Keys.pending ↦ Keys.unresolved
        ])
          ≡ none
    go Keys.done = refl
    go Keys.dead = refl
    go Keys.pending = refl

handle_key-new :
    (a : Attempt) (key : Option String) (keys : Dict Prior)
    → a.key ≡ key
    → is_malformed key ≡ false
    → prior key keys ≡ none
    → handle_key a keys ≡ perform a keys
unfolding handle_key look_up
handle_key-new a key keys named m n =
    rw (ap is_malformed named ∙ m, handle_key) (rw (ap (λ k. prior k keys) named ∙ n) refl)

new-IsExplained :
    (key : Option String) (req : Incoming) (hash : Option String) (keys : Dict Prior)
    (r : Response × Broker)
    → is_malformed key ≡ false
    → prior key keys ≡ none
    → Explains key req hash keys r
    → IsExplained key req hash keys r
new-IsExplained key req hash keys r m n x =
    let same = handle_key-new x.attempt key keys x.named m n in
    record {
      attempt = x.attempt;
      named = x.named;
      numbered = x.numbered;
      hashed = x.hashed;
      answers = ap (λ y. some y.0) same ∙ x.answers;
      effects = ap (λ y. effect_in_answer y.0) same ∙ x.effects;
      leaves = ap (λ y. y.1) same ∙ x.leaves;
    }

-- a request whose key is known
known-IsExplained :
    (key : Option String) (req : Incoming) (hash : Option String) (keys : Dict Prior)
    (r : Response × Broker) (p : Prior)
    → is_malformed key ≡ false
    → prior key keys ≡ some p
    → r.0 ≡ Response.repeated (duplicate p hash)
    → r.1.keys ≡ keys
    → IsExplained key req hash keys r
unfolding handle_key look_up
known-IsExplained key req hash keys r p m n e k = record {
  attempt = stopped key req hash false;
  named = refl;
  numbered = refl;
  hashed = refl;
  answers = rw (m, n, handle_key) (sym (ap answer_of e));
  effects = rw (m, n, handle_key) (effect_in-duplicate p hash ∙ sym (ap effect_in_response e));
  leaves = rw (m, n, handle_key) (sym k);
}

text_key-formed :
    (k : String) (fs : Fields) (key : Option String) (m : Json)
    → text_key k fs ≡ some (key, m)
    → is_malformed key ≡ false
unfolding text_key
text_key-formed k fs key m h = elim (Bool-cases (is_malformed (some k))) [
  | inl t ↦ let h' = rw (t, text_key) at h in cc
  | inr t ↦
      let h' = rw (t, text_key) at h in
      let same : some k ≡ key = cc in ap is_malformed (sym same) ∙ t
]

no_key-formed :
    (key : Option String) (m n : Json)
    → ◌≡◌ {A = Option (Option String × Json)} (some (none, m)) (some (key, n))
    → is_malformed key ≡ false
unfolding is_malformed
no_key-formed key m n h = let same : none ≡ key = cc in ap is_malformed (sym same)

keyed-formed :
    (fs : Fields) (o : Option Json) (key : Option String) (m : Json)
    → keyed fs o ≡ some (key, m)
    → is_malformed key ≡ false
unfolding keyed
keyed-formed fs none key m h = no_key-formed key (Json.obj fs) m h
keyed-formed fs (some (Json.str k)) key m h = text_key-formed k fs key m h
keyed-formed fs (some _) key m h = cc

take_key-formed :
    (j : Json) (key : Option String) (m : Json)
    → take_key j ≡ some (key, m)
    → is_malformed key ≡ false
unfolding take_key
take_key-formed (Json.obj fs) key m h = keyed-formed fs (get "idempotency_key" fs) key m h
take_key-formed j key m h = no_key-formed key j m h

module _ (set : Setting) (host : Host) (req : Incoming) where
  decided-IsExplained :
      (key : Option String) (d : Decided) (b : Broker)
      → is_malformed key ≡ false
      → (decided set host req key d b).0 ≢ escaped
      → IsExplained key req (hash_of set host d.invocation) b.keys (decided set host req key d b)
  unfolding decided
  decided-IsExplained key d b m n = elim (Option-cases (prior key b.keys)) [
    | inl e ↦
        rw (e, decided)
          (new-IsExplained key req _ b.keys (answer set host req key d b) m e
            (answer-Explains set host req key d b (rw (e, decided) at n)))
    | inr (p, e) ↦
        rw (e, decided)
          (known-IsExplained key req _ b.keys _ p m e refl (write-keys set host req _ b))
  ]

  handle_message-handle_key :
      (key : Option String) (message : Json) (late : Bool) (b : Broker)
      → is_malformed key ≡ false
      → (handle_message set host req key message late b).0 ≢ escaped
      → ((late ≡ true)
          × ((handle_message set host req key message late b).0 ≡ Response.clock)
          × ((handle_message set host req key message late b).1.keys ≡ b.keys))
        ⊎ ((late ≡ false)
            × IsExplained key req
                (hash_of set host (decision_on set host req message b).invocation)
                b.keys
                (handle_message set host req key message late b))
  unfolding handle_message
  handle_message-handle_key key message true b m n = inl (refl, refl, write-keys set host req _ b)
  handle_message-handle_key key message false b m n =
      let d = decision_on set host req message b in
      inr
        (refl, decided-IsExplained key d (record b { intents = d.intents; client = d.client }) m n)

  -- The handler implements the handling of keys, for a request whose key is well formed, unless an
  -- exception leaves it. If the clock went back, it says so and leaves the keys alone. Otherwise the
  -- handling of keys, for an attempt with the request's key and id and with the hash of the invocation
  -- that was decided on (none, if there is none), gives the same answer, also to a key that is known
  -- already, and leaves the same table of keys; and the answer reports an effect exactly if the
  -- attempt performs it. A rename whose source is not attested counts as refused.
  pub handle-handle_key :
      (b : Broker) (key : Option String) (message : Json)
      → take_key req.message ≡ some (key, message)
      → (handle set host req b).0 ≢ escaped
      → ((req.is_rolled_back ≡ true)
          × ((handle set host req b).0 ≡ Response.clock)
          × ((handle set host req b).1.keys ≡ b.keys))
        ⊎ ((req.is_rolled_back ≡ false)
            × IsExplained key req
                (hash_of set host (decision_on set host req message b).invocation)
                b.keys
                (handle set host req b))
  unfolding handle
  handle-handle_key b key message t n =
      rw (t, handle)
        (handle_message-handle_key key message req.is_rolled_back b
          (take_key-formed req.message key message t) (rw (t, handle) at n))
