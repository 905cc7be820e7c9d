-- ===== src/Handle/Sequence.antt =====
-- A sequence of requests, handled one after another.
use darm_guard.Prelude.{
  ℕ, ◌+◌, ◌≤◌, Bool, ◌&&◌, String, ◌≡◌, ◌≢◌, refl, sym, ap, ◌∙◌, inl, inr, Option, none, some, List,
  [], ◌∷◌, ◌==◌, string_eq, option_eq, if◌then◌else◌, arith, Option-cases,
}
use darm_guard.Keys
use darm_guard.Keys.{Answer, Attempt, Effect, handle_key}
use darm_guard.Keys.Once.{is_performed, performed_under, known, performed_at_most_once}
use darm_guard.Host.{Host}
use darm_guard.Execute.{is_some}
use darm_guard.Handle.Parts.{Incoming, Setting}
use darm_guard.Handle.{Broker, Response, escaped, take_key, handle}
use darm_guard.Handle.Attempts.{effect_in_answer, effect_in_response}
use darm_guard.Handle.Once.{handle-handle_key}

-- the idempotency key of a request, if it is well formed
abbrev pub key_of : Incoming → Option String
key_of req = elim (take_key req.message) [ none ↦ none | some t ↦ t.0 ]

is_performed-effect : (a : Answer) → is_performed a ≡ is_some (effect_in_answer a)
is_performed-effect (Keys.performed e) = refl
is_performed-effect Keys.malformed_key = refl
is_performed-effect Keys.different = refl
is_performed-effect Keys.earlier_failed = refl
is_performed-effect Keys.unresolved = refl
is_performed-effect Keys.refused = refl
is_performed-effect Keys.unrecorded = refl
is_performed-effect (Keys.already_applied rid) = refl

abbrev counted : String → Option String → Bool → ℕ → ℕ
counted k key p n = (if key == some k && p then 1 else 0) + n

counted_congruent :
    (k : String) {key key' : Option String} {p p' : Bool} {n n' : ℕ}
    → key ≡ key'
    → p ≡ p'
    → n ≡ n'
    → counted k key p n ≡ counted k key' p' n'
counted_congruent k e f g = cc (e, f, g)

counted-none :
    (k : String) (key : Option String) (p : Bool) (n : ℕ) → key ≡ none → n ≡ counted k key p n
counted-none k key p n e = rw e (omega arith)

uncounted :
    (k : String) (key : Option String) (e : Option Effect) (n : ℕ)
    → e ≡ none
    → n ≡ counted k key (is_some e) n
uncounted k key e n h = rw h (ground arith)

module _ (set : Setting) (host : Host) where
  -- how many of the requests with this key are answered with an effect
  abbrev pub effects_under : String → List Incoming → Broker → ℕ
  effects_under k [] b = 0
  effects_under k (req ∷ rest) b =
      (if key_of req == some k && is_some (effect_in_response (handle set host req b).0)
        then 1
        else 0)
      + effects_under k rest (handle set host req b).1

  -- no exception leaves the handler
  abbrev pub NoneEscape : List Incoming → Broker → Type 0
  NoneEscape [] b = Unit {0}
  NoneEscape (req ∷ rest) b =
      ((handle set host req b).0 ≢ escaped) × NoneEscape rest (handle set host req b).1

  malformed-idle :
      (req : Incoming) (b : Broker)
      → take_key req.message ≡ none
      → handle set host req b ≡ (Response.malformed_key, b)
  unfolding handle
  malformed-idle req b t = rw (t, handle) refl

  -- the attempts of the requests
  attempts_of :
      (k : String) (reqs : List Incoming) (b : Broker)
      → NoneEscape reqs b
      → (l : List Attempt) × (performed_under k l b.keys ≡ effects_under k reqs b)
  attempts_of k [] b n = ([], refl)
  attempts_of k (req ∷ rest) b (n, later) =
      let (l, same) = attempts_of k rest (handle set host req b).1 later in
      elim (Option-cases (take_key req.message)) [
        | inl t ↦ (
          l,
          ap (λ (r : Response × Broker). performed_under k l r.1.keys)
                (sym (malformed-idle req b t))
              ∙ same
              ∙ counted-none k (key_of req) _ _ (rw (t, key_of) refl),
        )
        | inr ((key, message), t) ↦ elim (handle-handle_key set host req b key message t n) [
          | inl (late, c, k') ↦ (
            l,
            ap (performed_under k l) (sym k')
                ∙ same
                ∙ uncounted k (key_of req) (effect_in_response (handle set host req b).0) _
                    (ap effect_in_response c),
          )
          | inr (late, x) ↦ (
            x.attempt ∷ l,
            counted_congruent k (x.named ∙ rw (t, key_of) refl)
                (is_performed-effect _ ∙ ap is_some x.effects)
                (ap (performed_under k l) x.leaves ∙ same),
          )
        ]
      ]

  -- Of the requests with one key, handled one after another without an exception, at most one is
  -- answered with an effect, and none if the key was in the table before.
  pub effects_at_most_once :
      (k : String) (reqs : List Incoming) (b : Broker)
      → NoneEscape reqs b
      → effects_under k reqs b ≤ (if known k b.keys then 0 else 1)
  effects_at_most_once k reqs b n =
      let (l, same) = attempts_of k reqs b n in
      let once = performed_at_most_once k l b.keys in rw (same) at once
