-- ===== src/Compare/Totals.antt =====
-- darm_guard/verify.py, `verify`: what a report counts.
use darm_guard.Prelude.{
  ℕ, ◌+◌, suc, Bool, not, ◌&&◌, ◌||◌, String, ◌≡◌, sym, ap, ◌∙◌, inl, inr, none, some, List, [],
  ◌∷◌, any, any-append, length, length-append, string_eq, arith, Bool-cases, Option-cases,
}
use darm_guard.Prelude.Dict
use darm_guard.Prelude.Dict.{Dict}
use darm_guard.Kernel.{KernelDecision}
use darm_guard.Compare.{
  Verdict, Report, KernelError, is_false_admit, count_up, has_text, text_or, bool_beq, diverging,
  compare_one, step, failing, verify_from, verify, has_false_admit,
}

-- the sum of a counter
abbrev pub total : Dict ℕ → ℕ
total [] = 0
total ((k, n) ∷ rest) = n + total rest

total-put-new :
    (k : String) (m : ℕ) (c : Dict ℕ) → Dict.get k c ≡ none → total (Dict.put k m c) ≡ total c + m
unfolding Dict.get Dict.put
total-put-new k m [] g = omega arith
total-put-new k m ((j, n) ∷ rest) g = ground (arith, total-put-new k m rest)

total-put-old :
    (k : String) (m n : ℕ) (c : Dict ℕ)
    → Dict.get k c ≡ some n
    → total (Dict.put k m c) + n ≡ total c + m
unfolding Dict.get Dict.put
total-put-old k m n [] g = cc
total-put-old k m n ((j, x) ∷ rest) g = ground (arith, total-put-old k m n rest)

total-count_up : (k : String) (c : Dict ℕ) → total (count_up k c) ≡ total c + 1
unfolding count_up
total-count_up k c = elim (Option-cases (Dict.get k c)) [
  | inl g ↦ rw (g, count_up) (total-put-new k 1 c g)
  | inr (n, g) ↦ rw (g, count_up) (let old = total-put-old k (n + 1) n c g in omega arith)
]

some_injective : (x y : KernelError) → some x ≡ some y → x ≡ y
some_injective x y h = cc

module _ {ℓ} {R : Type ℓ} (gate : R → Verdict) (kernel : R → KernelDecision) where
  -- the scenarios that a report counts
  abbrev pub counted : Report R → ℕ
  counted rep = rep.agree + total rep.unsupported + length rep.divergences

  counted-step :
      (i : ℕ) (req : R) (rep : Report R) → counted (step gate kernel i req rep) ≡ counted rep + 1
  unfolding step compare_one
  counted-step i req rep = elim (Bool-cases (gate req).supported) [
    | inr s ↦
        rw s
          (ground (arith, total-count_up (text_or "unspecified" (gate req).reason) rep.unsupported))
    | inl s ↦ rw s (elim (Bool-cases (bool_beq (gate req).admitted (kernel req).admitted)) [
      | inl e ↦ rw e (omega arith)
      | inr e ↦
          rw e (ground (arith, length-append rep.divergences (diverging gate kernel i req ∷ [])))
    ])
  ]

  failing-scenario :
      (i : ℕ) (req : R) (x : KernelError) → failing gate kernel i req ≡ some x → x.scenario ≡ i
  unfolding failing
  failing-scenario i req x h =
      elim (Bool-cases ((gate req).supported && has_text (kernel req).error)) [
        | inl t ↦
            (let h' = rw (t, failing) at h in
              sym (ap (λ (y : KernelError). y.scenario) (some_injective _ x h')))
        | inr t ↦ (let h' = rw (t, failing) at h in cc)
      ]

  -- what the loop has counted, by how it ends
  verify_from-counted :
      (i : ℕ) (reqs : List R) (rep : Report R)
      → ((verify_from gate kernel i reqs rep).0 ≡ none
          → counted (verify_from gate kernel i reqs rep).1 ≡ counted rep + length reqs)
        × ((e : KernelError)
            → (verify_from gate kernel i reqs rep).0 ≡ some e
            → counted (verify_from gate kernel i reqs rep).1 + i ≡ counted rep + e.scenario)
  unfolding verify_from failing
  verify_from-counted i [] rep = (λ h. omega arith, λ e h. cc)
  verify_from-counted i (req ∷ rest) rep =
      let (all_there, up_to) = verify_from-counted (suc i) rest (step gate kernel i req rep) in
      let one = counted-step i req rep in
      elim (Option-cases (failing gate kernel i req)) [
        | inl f ↦
            rw (f, verify_from)
              (
                λ h. (let later = all_there h in omega arith),
                λ e h. (let later = up_to e h in omega arith),
              )
        | inr (x, f) ↦
            rw (f, verify_from)
              (
                λ h. cc,
                λ e h.
                    ap (λ n. counted rep + n)
                      (sym (failing-scenario i req x f)
                        ∙ ap (λ (y : KernelError). y.scenario) (some_injective x e h)),
              )
      ]

  -- The agreements, the scenarios that the gate cannot express and the divergences of a report add up
  -- to the scenarios; and where an error of the kernel ends the comparison, to those before the one
  -- that it names.
  pub verify-counted :
      (reqs : List R)
      → ((verify gate kernel reqs).0 ≡ none → counted (verify gate kernel reqs).1 ≡ length reqs)
        × ((e : KernelError)
            → (verify gate kernel reqs).0 ≡ some e
            → counted (verify gate kernel reqs).1 ≡ e.scenario)
  unfolding verify
  verify-counted reqs =
      let (all_there, up_to) =
        verify_from-counted 0 reqs (record { agree = 0; unsupported = []; divergences = [] }) in
      (λ h. (let e = all_there h in omega arith), λ x h. (let e = up_to x h in omega arith))

  -- the gate admits what the kernel rejects
  abbrev pub is_unsafe : R → Bool
  is_unsafe req = (gate req).supported && (gate req).admitted && not (kernel req).admitted

  has_false_admit-step :
      (i : ℕ) (req : R) (rep : Report R)
      → has_false_admit gate kernel (step gate kernel i req rep)
        ≡ (has_false_admit gate kernel rep || is_unsafe req)
  unfolding step compare_one
  has_false_admit-step i req rep = elim (Bool-cases (gate req).supported) [
    | inr s ↦ rw s (ground arith)
    | inl s ↦ rw s (elim (Bool-cases (gate req).admitted) [
      | inl g ↦ rw g (elim (Bool-cases (kernel req).admitted) [
        | inl k ↦ rw k (ground arith)
        | inr k ↦ rw k (
            ground (
              arith,
              g,
              k,
              any-append (λ d. is_false_admit d.kind) rep.divergences
                  (diverging gate kernel i req ∷ []),
            ))
      ])
      | inr g ↦ rw g (elim (Bool-cases (kernel req).admitted) [
        | inl k ↦ rw k (
            ground (
              arith,
              g,
              k,
              any-append (λ d. is_false_admit d.kind) rep.divergences
                  (diverging gate kernel i req ∷ []),
            ))
        | inr k ↦ rw k (ground arith)
      ])
    ])
  ]

  verify_from-has_false_admit :
      (i : ℕ) (reqs : List R) (rep : Report R)
      → (verify_from gate kernel i reqs rep).0 ≡ none
      → has_false_admit gate kernel (verify_from gate kernel i reqs rep).1
        ≡ (has_false_admit gate kernel rep || any is_unsafe reqs)
  unfolding verify_from
  verify_from-has_false_admit i [] rep h = ground arith
  verify_from-has_false_admit i (req ∷ rest) rep h =
      elim (Option-cases (failing gate kernel i req)) [
        | inl f ↦
            rw (f, verify_from)
              (verify_from-has_false_admit (suc i) rest (step gate kernel i req rep)
                  (rw (f, verify_from) at h)
                ∙ rw (has_false_admit-step i req rep) (ground arith))
        | inr (x, f) ↦ (let h' = rw (f, verify_from) at h in cc)
      ]

  -- If no error of the kernel ends the comparison, its report has a false admit exactly if the gate
  -- admits a scenario that it can express and that the kernel rejects: the exit status of
  -- --fail-on-false-admit misses none and makes none up.
  pub verify-has_false_admit :
      (reqs : List R)
      → (verify gate kernel reqs).0 ≡ none
      → has_false_admit gate kernel (verify gate kernel reqs).1 ≡ any is_unsafe reqs
  unfolding verify
  verify-has_false_admit reqs h =
      verify_from-has_false_admit 0 reqs (record { agree = 0; unsupported = []; divergences = [] })
        h
