-- ===== src/Audit/Tamper.antt =====
-- Tamper evidence of the chain: under a collision-free hash the head and the length of a log
-- determine every entry of it.
use darm_guard.Prelude.{
  ℕ, suc, String, ◌≡◌, ap, inl, inr, Option, some, List, [], ◌∷◌, ◌++◌, length, string_eq,
  option_eq, eq_iff, arith, option_beq_iff, ◌∙◌, Option-cases, ◌+◌,
}
use darm_guard.Prelude.Result.{ok, Result-cases}
use darm_guard.Audit.{
  Stamp, Line, Row, blank, entry, AuditLog, zero_hash, entries, body_hash, load_row, load_rows,
  empty_log, load,
}

-- SHA-256 of the JSON of an entry has no collision.
abbrev pub IsInjective : {C : Type 0} → (C → Option String → Option Stamp → String) → Type 0
IsInjective {C} hash =
    (c d : C) (p q : Option String) (s t : Option Stamp)
    → hash c p s ≡ hash d q t
    → (c ≡ d) × (p ≡ q) × (s ≡ t)

module _ {C : Type 0} (hash : C → Option String → Option Stamp → String) where
  -- a chain of entries from a head, and the head that it ends in
  abbrev pub Linked : String → List (Line C) → Type 0
  Linked prev [] = Unit {0}
  Linked prev (e ∷ rest) =
      (e.prev_hash ≡ some prev)
      × (e.entry_hash ≡ some (body_hash hash e))
      × Linked (body_hash hash e) rest

  abbrev pub head_of : String → List (Line C) → String
  head_of prev [] = prev
  head_of prev (e ∷ rest) = head_of (body_hash hash e) rest

  load_row-Linked :
      (n : ℕ) (e : Line C) (log last : AuditLog C)
      → load_row hash n (entry e) log ≡ ok last
      → (e.prev_hash ≡ some log.prev)
        × (e.entry_hash ≡ some (body_hash hash e))
        × (last.prev ≡ body_hash hash e)
        × (last.count ≡ log.count + 1)
  unfolding load_row
  load_row-Linked n e log last h = elim (Option-cases e.entry_hash) [
    | inl none_there ↦ ground (arith, none_there)
    | inr (k, e_hash) ↦
        ground
          (arith, e_hash, option_beq_iff e.prev_hash (some log.prev), eq_iff (body_hash hash e) k)
  ]

  pub load_rows-Linked :
      (n : ℕ) (rows : List (Row C)) (log last : AuditLog C)
      → load_rows hash n rows log ≡ ok last
      → Linked log.prev (entries rows)
        × (last.prev ≡ head_of log.prev (entries rows))
        × (last.count ≡ log.count + length (entries rows))
  unfolding load_rows entries
  load_rows-Linked n [] log last h = ground arith
  load_rows-Linked n (blank ∷ rest) log last h =
      load_rows-Linked (suc n) rest (record log { rows = log.rows ++ blank ∷ [] }) last h
  load_rows-Linked n (entry e ∷ rest) log last h =
      elim (Result-cases (load_row hash n (entry e) log)) [
        | inl (log', r) ↦
            let (p, q, v, c) = load_row-Linked n e log log' r in
            let (l, p', c') = load_rows-Linked (suc n) rest log' last (ground (arith, r, h)) in
            ((p, q, rw v at l), p' ∙ ap (λ x. head_of x (entries rest)) v, omega (arith, c, c'))
        | inr (x, r) ↦ absurd (ground (arith, r, h))
      ]

  pub Linked-unique :
      IsInjective hash
      → (p q : String) (es fs : List (Line C)) → Linked p es
      → Linked q fs
      → length es ≡ length fs
      → head_of p es ≡ head_of q fs
      → (p ≡ q) × (es ≡ fs)
  unfolding body_hash
  Linked-unique inj p q [] [] l m n h = ground arith
  Linked-unique inj p q [] (f ∷ fs) l m n h = absurd (omega arith)
  Linked-unique inj p q (e ∷ es) [] l m n h = absurd (omega arith)
  Linked-unique inj p q (e ∷ es) (f ∷ fs) l m n h =
      let (links, tails) =
        Linked-unique inj (body_hash hash e) (body_hash hash f) es fs l.2 m.2 (omega arith) h in
      let (c, q', t) = inj e.content f.content e.prev_hash f.prev_hash e.ts f.ts links in
      let hashes : e.entry_hash ≡ f.entry_hash = cc (l.1, m.1, links) in
      (ground (arith, l.0, m.0, q'), ground (arith, c, q', t, hashes, tails))

  -- Two files that the broker starts on, with the same head and the same number of entries, hold
  -- the same entries: none can be edited, dropped, added or reordered under a head.
  pub load_unique :
      (rows rows' : List (Row C)) {log log' : AuditLog C}
      → IsInjective hash
      → load hash rows ≡ ok log
      → load hash rows' ≡ ok log'
      → log.prev ≡ log'.prev
      → log.count ≡ log'.count
      → entries rows ≡ entries rows'
  unfolding load
  load_unique rows rows' {log} {log'} inj h h' same count =
      let (l, p, c) = load_rows-Linked 0 rows empty_log log h in
      let (l', p', c') = load_rows-Linked 0 rows' empty_log log' h' in
      (Linked-unique inj zero_hash zero_hash (entries rows) (entries rows') l l'
        (omega (arith, c, c')) (cc (p, p', same))).1
