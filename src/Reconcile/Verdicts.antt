-- ===== src/Reconcile/Verdicts.antt =====
-- What a verdict says of the target, and what becomes of the intent by it.
use darm_guard.Prelude.{
  true, false, ◌&&◌, String, ◌≡◌, ◌≢◌, ◌↔◌, refl, sym, ap, ◌∙◌, inl, inr, Option, none, some,
  string_eq, arith, eq_iff, Bool-cases, Option-cases,
}
use darm_guard.Prelude.Dict
use darm_guard.Intent.{Observed, absent, present, unavailable}
use darm_guard.Intent.Store.{
  IntentStore, Reconciliation, confirmed_success, confirmed_failure, unresolved, Settlement, spent,
  returned, settlement, settle,
}
use darm_guard.Reconcile.{
  observed_beq, is_unavailable, is_intended, is_before, reconcile, reconcile_rename,
}

pub observed_beq_iff : (o p : Observed) → (observed_beq o p ≡ true) ↔ (o ≡ p)
unfolding observed_beq
observed_beq_iff absent absent = (λ h. refl, λ h. refl)
observed_beq_iff absent (present e) = (λ h. cc, λ h. cc)
observed_beq_iff absent (unavailable y) = (λ h. cc, λ h. cc)
observed_beq_iff (present d) absent = (λ h. cc, λ h. cc)
observed_beq_iff (present d) (present e) =
    (λ h. ap present ((eq_iff d e).0 h), λ h. (eq_iff d e).1 cc)
observed_beq_iff (present d) (unavailable y) = (λ h. cc, λ h. cc)
observed_beq_iff (unavailable x) absent = (λ h. cc, λ h. cc)
observed_beq_iff (unavailable x) (present e) = (λ h. cc, λ h. cc)
observed_beq_iff (unavailable x) (unavailable y) =
    (λ h. ap unavailable ((eq_iff x y).0 h), λ h. (eq_iff x y).1 cc)

pub is_intended_iff : (i : Option Observed) (o : Observed) → (is_intended i o ≡ true) ↔ (i ≡ some o)
unfolding is_intended
is_intended_iff none o = (λ h. cc, λ h. cc)
is_intended_iff (some i) o =
    (λ h. ap some (sym ((observed_beq_iff o i).0 h)), λ h. (observed_beq_iff o i).1 cc)

is_before-true :
    (b i : Option Observed) (o : Observed) → is_before b i o ≡ true → (b ≡ some o) × (i ≢ some o)
unfolding is_before
is_before-true none i o h = cc
is_before-true (some b) i o h =
    let same : o ≡ b = (observed_beq_iff o b).0 (ground arith) in
    (
      ap some (sym same),
      λ e.
          let yes_it_is : is_intended i b ≡ true = (is_intended_iff i b).1 (e ∙ ap some same) in
          ground (arith, yes_it_is),
    )

is_before-intro :
    (b i : Option Observed) (o : Observed) → b ≡ some o → i ≢ some o → is_before b i o ≡ true
unfolding is_before
is_before-intro b i o e n =
    rw (e, is_before) (ground (arith, (observed_beq_iff o o).1 refl, n, is_intended_iff i o))

-- A verdict of success says that the target is in the intended state, a verdict of failure that it
-- is in the state before, which is not the intended one; in every other case, and whenever the
-- target cannot be observed, the effect is unresolved.
pub reconcile_verdicts :
    (before intended : Option Observed) (o : Observed)
    → ((reconcile before intended o ≡ confirmed_success)
        ↔ ((is_unavailable o ≡ false) × (intended ≡ some o)))
      × ((reconcile before intended o ≡ confirmed_failure)
          ↔ ((is_unavailable o ≡ false) × (before ≡ some o) × (intended ≢ some o)))
unfolding reconcile
reconcile_verdicts before intended o = elim (Bool-cases (is_unavailable o)) [
  | inl u ↦ rw u ((λ h. cc, λ h. ground (arith, h)), (λ h. cc, λ h. ground (arith, h)))
  | inr u ↦ elim (Bool-cases (is_intended intended o)) [
    | inl i ↦
        let e = (is_intended_iff intended o).0 i in
        rw (u, i) ((λ h. (refl, e), λ h. refl), (λ h. cc, λ h. absurd (h.2 e)))
    | inr i ↦
        let n : intended ≢ some o = λ e. ground (arith, i, (is_intended_iff intended o).1 e) in
        elim (Bool-cases (is_before before intended o)) [
          | inl b ↦
              rw (u, i, b)
                (
                  (λ h. cc, λ h. absurd (n h.1)),
                  (
                    λ h.
                        let (was, differs) = is_before-true before intended o b in
                        (refl, was, differs),
                    λ h. refl,
                  ),
                )
          | inr b ↦
              rw (u, i, b)
                (
                  (λ h. cc, λ h. absurd (n h.1)),
                  (λ h. cc, λ h. ground (arith, b, is_before-intro before intended o h.1 h.2)),
                )
        ]
  ]
]

settlement-spent : (v : Reconciliation) → settlement v ≡ spent → v ≡ confirmed_success
unfolding settlement
settlement-spent confirmed_success h = refl
settlement-spent confirmed_failure h = cc
settlement-spent unresolved h = cc

settlement-returned : (v : Reconciliation) → settlement v ≡ returned → v ≡ confirmed_failure
unfolding settlement
settlement-returned confirmed_success h = cc
settlement-returned confirmed_failure h = refl
settlement-returned unresolved h = cc

settle-settlement :
    (rid : String) (v : Reconciliation) (st : IntentStore) (s : Settlement)
    → (settle rid v st).0 ≡ some s
    → settlement v ≡ s
unfolding settle
settle-settlement rid v st s h = elim (Option-cases (Dict.get rid st.reserved)) [
  | inl e ↦ let h' = rw (e, settle) at h in cc
  | inr (used, e) ↦ let h' = rw (e, settle) at h in cc
]

-- An intent that is settled by the verdict of `_reconcile` on an observation of the target, as for
-- writes and deletes that are reconciled, is spent only if the target is observed in the intended
-- state, and given back only if it is observed in the state that was recorded before and that is not
-- the intended one. (A read, a listing, a fetch and a rename are settled by other verdicts.)
pub settle-reconcile :
    (rid : String) (before intended : Option Observed) (o : Observed) (st : IntentStore)
    → ((settle rid (reconcile before intended o) st).0 ≡ some spent → intended ≡ some o)
      × ((settle rid (reconcile before intended o) st).0 ≡ some returned
          → (before ≡ some o) × (intended ≢ some o))
settle-reconcile rid before intended o st =
    let v = reconcile before intended o in
    let (won, lost) = reconcile_verdicts before intended o in
    (
      λ h. (won.0 (settlement-spent v (settle-settlement rid v st spent h))).1,
      λ h.
          let (u, b, i) = lost.0 (settlement-returned v (settle-settlement rid v st returned h)) in
          (b, i),
    )

-- A rename is confirmed only if the target has the file that the source had and the source is
-- gone, and disproved only if both are as they were.
pub reconcile_rename_verdicts :
    (before target_before intended source_now target_now : Observed)
    → (reconcile_rename before target_before intended source_now target_now ≡ confirmed_success
        → (target_now ≡ intended) × (source_now ≡ absent))
      × (reconcile_rename before target_before intended source_now target_now ≡ confirmed_failure
          → (source_now ≡ before) × (target_now ≡ target_before))
unfolding reconcile_rename
reconcile_rename_verdicts before target_before intended source_now target_now =
    let t = observed_beq_iff target_now intended in
    let s = observed_beq_iff source_now absent in
    let b = observed_beq_iff source_now before in
    let k = observed_beq_iff target_now target_before in
    elim (Bool-cases (observed_beq target_now intended && observed_beq source_now absent)) [
      | inl x ↦ rw x (λ h. (t.0 (ground arith), s.0 (ground arith)), λ h. cc)
      | inr x ↦
          elim (Bool-cases
            (observed_beq source_now before && observed_beq target_now target_before)) [
              | inl y ↦ rw (x, y) (λ h. cc, λ h. (b.0 (ground arith), k.0 (ground arith)))
              | inr y ↦ rw (x, y) (λ h. cc, λ h. cc)
            ]
    ]
