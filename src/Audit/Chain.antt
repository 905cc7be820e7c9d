-- ===== src/Audit/Chain.antt =====
-- The log that is loaded is the log that was appended to.
use mathlib.Core.Path.{subst, sym}
use mathlib.Core.List.{append-nil, append_assoc}
use darm_guard.Prelude.{
  ℕ, suc, String, ◌≡◌, inl, inr, Option, some, List, [], ◌∷◌, ◌++◌, string_eq, option_eq, arith,
  ==-refl,
}
use darm_guard.Prelude.Result.{ok, Result-cases}
use darm_guard.Audit.{
  at, Stamp, Row, blank, entry, AuditLog, load_row, load_rows, empty_log, load, new_line,
  append_entry,
}

module _ {C : Type 0} (hash : C → Option String → Option Stamp → String) where
  load_rows-append :
      (n : ℕ) (rows : List (Row C)) (row : Row C) (log mid last : AuditLog C)
      → load_rows hash n rows log ≡ ok mid
      → ((k : ℕ) → load_row hash k row mid ≡ ok last)
      → load_rows hash n (rows ++ row ∷ []) log ≡ ok last
  unfolding load_rows
  load_rows-append n [] row log mid last h step = ground (arith, step n)
  load_rows-append n (r ∷ rest) row log mid last h step =
      elim (Result-cases (load_row hash n r log)) [
        | inl (log', e) ↦
            rw (e, load_rows)
              (load_rows-append (suc n) rest row log' mid last (ground (arith, e)) step)
        | inr (x, e) ↦ ground (arith, e)
      ]

  load_row-rows :
      (n : ℕ) (row : Row C) (log last : AuditLog C)
      → load_row hash n row log ≡ ok last
      → last.rows ≡ log.rows ++ row ∷ []
  unfolding load_row
  load_row-rows n blank log last h = ground arith
  load_row-rows n (entry e) log last h = ground arith

  load_rows-rows :
      (n : ℕ) (rows : List (Row C)) (log last : AuditLog C)
      → load_rows hash n rows log ≡ ok last
      → last.rows ≡ log.rows ++ rows
  unfolding load_rows
  load_rows-rows n [] log last h = ground (arith, append-nil log.rows)
  load_rows-rows n (r ∷ rest) log last h = elim (Result-cases (load_row hash n r log)) [
    | inl (log', e) ↦ ground (
      arith,
      e,
      load_row-rows n r log log' e,
      load_rows-rows (suc n) rest log' last,
      append_assoc log.rows (r ∷ []) rest,
    )
    | inr (x, e) ↦ ground (arith, e)
  ]

  load_row-append_entry :
      (content : C) (now k : ℕ) (log : AuditLog C)
      → load_row hash k (entry (new_line hash content log.prev now)) log
        ≡ ok (append_entry hash content now log)
  unfolding load_row append_entry
  load_row-append_entry content now k log =
      ground (arith, ==-refl log.prev, ==-refl (hash content (some log.prev) (some (at now))))

  -- Loading the file that an append left gives the state that the append left: a broker that
  -- restarts goes on with the chain head, the count and the last time of the one before it.
  pub load-append_entry :
      (rows : List (Row C)) (content : C) (now : ℕ) {log : AuditLog C}
      → load hash rows ≡ ok log
      → load hash (append_entry hash content now log).rows ≡ ok (append_entry hash content now log)
  unfolding load append_entry
  load-append_entry rows content now {log} h =
      let line = new_line hash content log.prev now in
      let grown : load_rows hash 0 (rows ++ entry line ∷ []) empty_log
          ≡ ok (append_entry hash content now log) =
        load_rows-append 0 rows (entry line) empty_log log (append_entry hash content now log) h
          (λ k. load_row-append_entry content now k log) in
      subst
        (λ x.
          load_rows hash 0 (x ++ entry line ∷ []) empty_log
          ≡ ok (append_entry hash content now log))
        (sym (load_rows-rows 0 rows empty_log log h)) grown
