-- ===== src/Audit/Evidence.antt =====
-- darm_guard/evidence.py: the auditor's check of the chain is the broker's.
use darm_guard.Prelude.{
  All, inl, inr, false, Option-cases, append-eq-nil, ==-refl, ℕ, suc, ◌+◌, String, ◌≡◌, refl, ◌↔◌,
  Option, some, List, [], ◌∷◌, ◌++◌, string_eq, option_eq, option_beq_iff, arith,
}
use darm_guard.Prelude.Result.{ok, Result-cases}
use darm_guard.Audit.{
  Stamp, is_unreadable, load_entry, Line, Row, blank, entry, AuditLog, zero_hash, entries,
  body_hash, load_row, load_rows, empty_log, load, entry_problems, problems_from, chain_problems,
  later_of, first_of,
}
use darm_guard.Audit.Tamper.{Linked, load_rows-Linked}

module _ {C : Type 0} (hash : C → Option String → Option Stamp → String) where
  entry_problems-Linked :
      (n : ℕ) (p : String) (e : Line C)
      → (entry_problems hash n (some p) e ≡ [])
        ↔ ((e.prev_hash ≡ some p) × (e.entry_hash ≡ some (body_hash hash e)))
  unfolding entry_problems
  entry_problems-Linked n p e = ground (
    arith,
    option_beq_iff e.prev_hash (some p),
    option_beq_iff (some (body_hash hash e)) e.entry_hash,
  )

  problems_from-Linked :
      (n : ℕ) (p : String) (es : List (Line C))
      → (problems_from hash n (some p) es ≡ []) ↔ Linked hash p es
  unfolding problems_from
  problems_from-Linked n p [] = (λ _. tt, λ _. refl)
  problems_from-Linked n p (e ∷ es) = (
    λ h.
        let (here, there) =
          append-eq-nil (entry_problems hash n (some p) e)
            (problems_from hash (suc n) e.entry_hash es) h in
        let (prev, own) = (entry_problems-Linked n p e).0 here in
        (prev, own, (problems_from-Linked (suc n) (body_hash hash e) es).0 (rw own at there)),
    λ l.
        rw ((entry_problems-Linked n p e).1 (l.0, l.1), l.1)
          ((problems_from-Linked (suc n) (body_hash hash e) es).1 l.2),
  )

  linked_log : Line C → AuditLog C → AuditLog C
  linked_log e log = record {
    rows = log.rows ++ entry e ∷ [];
    prev = body_hash hash e;
    last_ts = later_of log.last_ts e.ts;
    count = log.count + 1;
    genesis = first_of log.genesis (body_hash hash e);
  }

  -- every time of the entries can be read
  abbrev pub IsReadable : List (Line C) → Type 0
  IsReadable es = All (λ e. is_unreadable e.ts ≡ false) es

  load_row-of-Linked :
      (n : ℕ) (e : Line C) (log : AuditLog C)
      → is_unreadable e.ts ≡ false
      → e.prev_hash ≡ some log.prev
      → e.entry_hash ≡ some (body_hash hash e)
      → load_row hash n (entry e) log ≡ ok (linked_log e log)
  unfolding load_row linked_log
  load_row-of-Linked n e log t p q =
      ground (arith, option_beq_iff e.prev_hash (some log.prev), ==-refl (body_hash hash e))

  load_rows-of-Linked :
      (n : ℕ) (rows : List (Row C)) (log : AuditLog C)
      → Linked hash log.prev (entries rows)
      → IsReadable (entries rows)
      → (last : AuditLog C) × (load_rows hash n rows log ≡ ok last)
  unfolding load_rows entries
  load_rows-of-Linked n [] log l t = (log, refl)
  load_rows-of-Linked n (blank ∷ rest) log l t =
      load_rows-of-Linked (suc n) rest (record log { rows = log.rows ++ blank ∷ [] }) l t
  load_rows-of-Linked n (entry e ∷ rest) log l t =
      rw (load_row-of-Linked n e log t.0 l.0 l.1, load_rows)
        (load_rows-of-Linked (suc n) rest (linked_log e log) (unfold linked_log in l.2) t.1)

  load_row-readable :
      (n : ℕ) (e : Line C) (log last : AuditLog C)
      → load_row hash n (entry e) log ≡ ok last
      → is_unreadable e.ts ≡ false
  unfolding load_row load_entry
  load_row-readable n e log last h = elim (Option-cases e.entry_hash) [
    | inl k ↦ ground (arith, k)
    | inr (x, k) ↦ ground (arith, k)
  ]

  load_rows-IsReadable :
      (n : ℕ) (rows : List (Row C)) (log last : AuditLog C)
      → load_rows hash n rows log ≡ ok last
      → IsReadable (entries rows)
  unfolding load_rows entries load_row
  load_rows-IsReadable n [] log last h = tt
  load_rows-IsReadable n (blank ∷ rest) log last h =
      load_rows-IsReadable (suc n) rest (record log { rows = log.rows ++ blank ∷ [] }) last h
  load_rows-IsReadable n (entry e ∷ rest) log last h =
      elim (Result-cases (load_row hash n (entry e) log)) [
        | inl (log', r) ↦ (
          load_row-readable n e log log' r,
          load_rows-IsReadable (suc n) rest log' last (ground (arith, r, h)),
        )
        | inr (x, r) ↦ ground (arith, r, h)
      ]

  -- The broker opens a log exactly when the auditor finds no problem in its chain and each time that
  -- an entry bears can be read, for a file whose lines are blank or JSON objects.
  pub chain_problems-load :
      (rows : List (Row C))
      → ((chain_problems hash rows ≡ []) × IsReadable (entries rows))
        ↔ ((log : AuditLog C) × (load hash rows ≡ ok log))
  unfolding chain_problems load
  chain_problems-load rows = (
    λ (h, t).
        load_rows-of-Linked 0 rows empty_log ((problems_from-Linked 1 zero_hash (entries rows)).0 h)
          t,
    λ (log, h). (
      (problems_from-Linked 1 zero_hash (entries rows)).1
          (load_rows-Linked hash 0 rows empty_log log h).0,
      load_rows-IsReadable 0 rows empty_log log h,
    ),
  )
