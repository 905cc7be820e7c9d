-- ===== src/Checkpoint/Extends.antt =====
-- A log without findings extends every log whose head was published.
use mathlib.Core.Option.{some-injective}
use darm_guard.Prelude.{
  ℕ, zero, suc, ◌≤◌, ◌<◌, String, ◌≡◌, refl, sym, ◌∙◌, inl, inr, Option, none, some, List, [], ◌∷◌,
  ◌++◌, length, take, All, arith, ltb, ◌==◌, nat_eq, string_eq, eq_iff, Bool-cases, Option-cases,
}
use darm_guard.Prelude.Result.{ok, Result-cases}
use darm_guard.Audit.{Stamp, Line, Row, AuditLog, entries, body_hash, empty_log, load, zero_hash}
use darm_guard.Audit.Tamper.{IsInjective, Linked, head_of, load_rows-Linked, Linked-unique}
use darm_guard.Attest.{Scheme, KeyRing, Checkpoint, verify_checkpoint}
use darm_guard.Checkpoint.{
  Report, truncated, rewritten, other_log, bad_signature, get_or, entry_before, check_extent,
  check_genesis, check_one, check_all, check_log,
}

module _ {C : Type 0} (hash : C → Option String → Option Stamp → String) where
  Linked-take :
      (n : ℕ) (p : String) (es : List (Line C)) → Linked hash p es → Linked hash p (take n es)
  Linked-take zero p es l = tt
  Linked-take (suc n) p [] l = tt
  Linked-take (suc n) p (e ∷ es) l = (l.0, l.1, Linked-take n (body_hash hash e) es l.2)

  length-take : (n : ℕ) (es : List (Line C)) → n ≤ length es → length (take n es) ≡ n
  length-take zero es h = refl
  length-take (suc n) [] h = absurd (omega arith)
  length-take (suc n) (e ∷ es) h = omega (arith, length-take n es)

  -- the hash that the file holds at a place is the head of the chain up to there
  head_of-take :
      (i : ℕ) (p : String) (es : List (Line C)) (d : Line C)
      → Linked hash p es
      → i < length es
      → (get_or es i d).entry_hash ≡ some (head_of hash p (take (suc i) es))
  unfolding get_or
  head_of-take i p [] d l h = absurd (omega arith)
  head_of-take zero p (e ∷ es) d l h = l.1
  head_of-take (suc i) p (e ∷ es) d l h = head_of-take i (body_hash hash e) es d l.2 (omega arith)

-- A checkpoint that gave no finding: its count is within the log, and its head is the hash there.
pub record Passes {C : Type 0} (es : List (Line C)) (cp : Checkpoint) : Type 0 where
  pub first : Line C
  pub others : List (Line C)
  pub shape : es ≡ first ∷ others
  pub within : cp.count ≤ suc (length others)
  pub same : (entry_before cp.count first others).entry_hash ≡ some cp.head

snoc-ne-nil {ℓ} : {A : Type ℓ} (xs : List A) (x : A) → xs ++ x ∷ [] ≡ [] → ⊥
snoc-ne-nil [] x h = cc
snoc-ne-nil (y ∷ xs) x h = cc

module _ {C : Type 0} (s : Scheme) where
  check_extent-clean :
      (e : Line C) (rest : List (Line C)) (cp : Checkpoint) (r r' : Report)
      → check_extent s e rest cp r ≡ ok r'
      → r'.findings ≡ []
      → (r.findings ≡ []) × Passes (e ∷ rest) cp
  unfolding check_extent
  check_extent-clean e rest cp r r' h clean = elim (Bool-cases (ltb (suc (length rest)) cp.count)) [
    | inl b ↦ absurd (snoc-ne-nil r.findings (truncated cp.count) (ground (arith, b)))
    | inr b ↦ elim (Option-cases (entry_before cp.count e rest).entry_hash) [
      | inl k ↦ ground (arith, b, k)
      | inr (x, k) ↦ elim (Bool-cases (x == cp.head)) [
        | inl m ↦ (
          ground (arith, b, k, m),
          record {
            first = e;
            others = rest;
            shape = refl;
            within = ground (arith, b);
            same = ground (arith, k, m, eq_iff x cp.head);
          },
        )
        | inr m ↦ absurd (snoc-ne-nil r.findings (rewritten cp.count) (ground (arith, b, k, m)))
      ]
    ]
  ]

  check_genesis-clean :
      (es : List (Line C)) (cp : Checkpoint) (r r' : Report)
      → check_genesis s es cp r ≡ ok r'
      → r'.findings ≡ []
      → (r.findings ≡ []) × Passes es cp
  unfolding check_genesis
  check_genesis-clean [] cp r r' h clean =
      absurd (snoc-ne-nil r.findings (other_log cp.count) (ground arith))
  check_genesis-clean (e ∷ rest) cp r r' h clean = elim (Option-cases e.entry_hash) [
    | inl k ↦ ground (arith, k)
    | inr (x, k) ↦ elim (Bool-cases (cp.genesis == x)) [
      | inl m ↦ check_extent-clean e rest cp r r' (ground (arith, k, m)) clean
      | inr m ↦ absurd (snoc-ne-nil r.findings (other_log cp.count) (ground (arith, k, m)))
    ]
  ]

  check_one-clean :
      (ring : KeyRing) (es : List (Line C)) (cp : Checkpoint) (r r' : Report)
      → check_one s ring es cp r ≡ ok r'
      → r'.findings ≡ []
      → (r.findings ≡ []) × (verify_checkpoint s ring cp ≡ none) × Passes es cp
  unfolding check_one
  check_one-clean ring es cp r r' h clean = elim (Option-cases (verify_checkpoint s ring cp)) [
    | inl v ↦
        let (before, p) = check_genesis-clean es cp r r' (ground (arith, v)) clean in (before, v, p)
    | inr (why, v) ↦
        absurd (snoc-ne-nil r.findings (bad_signature cp.count why) (ground (arith, v)))
  ]

  check_all-clean :
      (ring : KeyRing) (es : List (Line C)) (cps : List Checkpoint) (r r' : Report)
      → check_all s ring es cps r ≡ ok r'
      → r'.findings ≡ []
      → (r.findings ≡ []) × All (λ cp. (verify_checkpoint s ring cp ≡ none) × Passes es cp) cps
  unfolding check_all
  check_all-clean ring es [] r r' h clean = (ground arith, tt)
  check_all-clean ring es (cp ∷ cps) r r' h clean = elim (Result-cases (check_one s ring es cp r)) [
    | inl (mid, e) ↦
        let (clean', later) = check_all-clean ring es cps mid r' (ground (arith, e)) clean in
        let (before, v, p) = check_one-clean ring es cp r mid e clean' in (before, ((v, p), later))
    | inr (x, e) ↦ absurd (ground (arith, e))
  ]

-- The log holds, entry by entry, every log that ends in this checkpoint's head at its count.
abbrev pub Extends :
    {C : Type 0} → (C → Option String → Option Stamp → String) → List (Line C) → Checkpoint → Type 0
Extends {C} hash es cp =
    (old : List (Row C)) (log : AuditLog C)
    → load hash old ≡ ok log
    → log.count ≡ cp.count
    → log.prev ≡ cp.head
    → take cp.count es ≡ entries old

All-map {ℓ} :
    {A : Type ℓ} {P Q : A → Type ℓ} → ((a : A) → P a → Q a) → (xs : List A) → All P xs → All Q xs
All-map f [] h = tt
All-map f (x ∷ xs) h = (f x h.0, All-map f xs h.1)

module _ {C : Type 0} (hash : C → Option String → Option Stamp → String) (s : Scheme) where
  covered_prefix :
      IsInjective hash
      → (n : ℕ) (e : Line C) (rest old : List (Line C)) (head : String)
      → Linked hash zero_hash (e ∷ rest)
      → n ≤ suc (length rest)
      → (entry_before n e rest).entry_hash ≡ some head
      → Linked hash zero_hash old
      → head_of hash zero_hash old ≡ head
      → length old ≡ n
      → take n (e ∷ rest) ≡ old
  unfolding entry_before
  covered_prefix inj zero e rest [] head l w m l' h c = refl
  covered_prefix inj zero e rest (f ∷ old) head l w m l' h c = absurd (omega arith)
  covered_prefix inj (suc i) e rest old head l w m l' h c =
      let es = e ∷ rest in
      let at_place = head_of-take hash i zero_hash es e l w in
      let same_head : head_of hash zero_hash (take (suc i) es) ≡ head_of hash zero_hash old =
        some-injective _ _ (sym at_place ∙ m) ∙ sym h in
      (Linked-unique hash inj zero_hash zero_hash (take (suc i) es) old
        (Linked-take hash (suc i) zero_hash es l) l' (omega (arith, length-take hash (suc i) es w))
        same_head).1

  Passes-Extends :
      (es : List (Line C)) (cp : Checkpoint)
      → IsInjective hash
      → Linked hash zero_hash es
      → Passes es cp
      → Extends hash es cp
  unfolding load entry_before
  Passes-Extends es cp inj l p old log h c q =
      let (l', head, count) = load_rows-Linked hash 0 old empty_log log h in
      rw p.shape (
        covered_prefix inj cp.count p.first p.others (entries old) cp.head (rw p.shape at l)
          p.within p.same l' (sym head ∙ q) (omega (arith, count, c)))

  -- A log that a broker would start on and that gives no finding extends every published
  -- checkpoint: every log that ended in a published head, at its count, is still there, entry by
  -- entry, at its beginning. The signatures are checked with the ring, and the hash has no collision.
  pub check_log-Extends :
      (rows : List (Row C)) (checkpoints : List Checkpoint) (ring : KeyRing) {now : AuditLog C}
      {r : Report}
      → IsInjective hash
      → load hash rows ≡ ok now
      → check_log s rows checkpoints ring ≡ ok r
      → r.findings ≡ []
      → All
          (λ cp. (verify_checkpoint s ring cp ≡ none) × Extends hash (entries rows) cp)
          checkpoints
  unfolding check_log load
  check_log-Extends rows checkpoints ring {now} {r} inj h k clean =
      All-map
        (λ cp both. (
          both.0,
          Passes-Extends (entries rows) cp inj (load_rows-Linked hash 0 rows empty_log now h).0
              both.1,
        ))
        checkpoints
        (check_all-clean s ring (entries rows) checkpoints (record { findings = []; covered = 0 }) r
          k clean).1
