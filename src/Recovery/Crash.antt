-- ===== src/Recovery/Crash.antt =====
-- `_recover_rename` on what an interrupted rename leaves.
use darm_guard.Prelude.{
  true, false, String, ◌≡◌, ◌≢◌, refl, ap, ◌∙◌, inl, inr, Option, none, some, ◌==◌, string_eq,
  option_eq, option_beq_iff, arith, eq_iff, ==-refl, Bool-cases,
}
use darm_guard.Prelude.Dict
use darm_guard.Prelude.Dict.{Dict, get-put, get-remove}
use darm_guard.Prelude.Result.{Result, ok}
use darm_guard.Intent.{absent, present}
use darm_guard.Intent.Store.{Reconciliation, confirmed_success, confirmed_failure}
use darm_guard.Journal.{Record}
use darm_guard.Reconcile.{observed_beq}
use darm_guard.Reconcile.Verdicts.{is_intended_iff}
use darm_guard.Effect.{
  Node, regular, special, Disk, World, Outcome, act, left, turn, kind_of, leaf_kind,
}
use darm_guard.Effect.Replace.{calm}
use darm_guard.Effect.Calls.{rename_noreplace-ok, set_att-ok, get-moved, observed_node}
use darm_guard.Host.{Host, slot, raw_attestation, attestation_of, or_empty}
use darm_guard.Recovery.{
  checked, is_reattested, roll_back, placed, forward_or_back, move_private, reattest,
  restore_source, complete, complete_rename, judge_rename, classified, recover_opened,
  recover_rename,
}
use darm_guard.Recovery.Calm.{
  IsText, read_attestation-calm, observe-calm, is_ours-calm, is_ours-gone,
}

-- What the prepared record of a rename says, where the source held `c` with the attestation `old`, and
-- the target was `there`; `new` is the attestation that the request signs for the target.
pub record IsPrepared (host : Host) (e : Record) (source target private c : String)
    (old : Option String) (new : String) (there : Option Node) : Type 0 where
  pub leaf : String
  pub names_private : e.private ≡ some leaf
  pub private_slot : host.beside source leaf ≡ private
  pub source_slot : host.opened (or_empty e.source) ≡ slot source
  pub target_slot : host.opened (or_empty e.target) ≡ slot target
  pub private_apart : (private ≢ source) × (private ≢ target)
  pub apart : source ≢ target
  pub before : e.before ≡ some (present (host.sha256 c))
  pub intended : e.intended ≡ some (present (host.sha256 c))
  pub destination_before : e.destination_before ≡ some (observed_node host.sha256 there)
  pub attestation : e.source_attestation ≡ old
  pub old_is_text : IsText host old
  pub new_is_text : host.is_text new ≡ true
  pub new_is_ours : is_reattested host e.rid (or_empty e.target) (checked host (some new)) ≡ true
  pub old_is_not : is_reattested host e.rid (or_empty e.target) (checked host old) ≡ false
  pub has_renameat2 : host.has_renameat2 ≡ true

module _ (source target private c : String) (old : Option String) (new : String)
    (there : Option Node) where
  -- what the names hold
  abbrev pub Holds : Disk → Option Node → Option Node → Option Node → Type 0
  Holds d s t p = (Dict.get source d ≡ s) × (Dict.get target d ≡ t) × (Dict.get private d ≡ p)

  -- The disk when the rename stops: before it claims the source, after the claim, after the new
  -- attestation is set, after the file is placed, and after it is moved back where the target was
  -- taken, with the new attestation or the old one again.
  pub data IsInterrupted (d : Disk) : Type 0 where
    untouched : Holds d (some (regular c old)) there none → IsInterrupted d
    claimed : Holds d none there (some (regular c old)) → IsInterrupted d
    attested : Holds d none there (some (regular c (some new))) → IsInterrupted d
    finished : Holds d none (some (regular c (some new))) none → IsInterrupted d
    moved_back : Holds d (some (regular c (some new))) there none → IsInterrupted d

  -- the file is at the target with the new attestation, or everything is as before the rename
  pub data IsRecovered (r : Result (Unit {0}) Reconciliation × World) : Type 0 where
    completed :
        (d : Disk)
        → r ≡ (ok confirmed_success, calm d)
        → Holds d none (some (regular c (some new))) none
        → IsRecovered r
    undone :
        (d : Disk)
        → r ≡ (ok confirmed_failure, calm d)
        → Holds d (some (regular c old)) there none
        → IsRecovered r

  module _ (host : Host) (e : Record)
      (i : IsPrepared host e source target private c old new there) where
    roll_back-calm :
        (a : Option String) (d : Disk)
        → Holds d none there (some (regular c a))
        → (d' : Disk) × (roll_back host e private source (calm d) ≡ (ok tt, calm d'))
          × Holds d' (some (regular c old)) there none
    unfolding roll_back turn act left
    roll_back-calm a d (at_source, at_target, at_private) =
        let moved : Disk = Dict.put source (regular c a) (Dict.remove private d) in
        let back : Dict.get source moved ≡ some (regular c a) =
          get-moved private source source (regular c a) d ∙ ground (arith, ==-refl source) in
        (
          Dict.put source (regular c old) moved,
          rw (i.before, i.attestation, i.has_renameat2)
              (rw (is_ours-calm host private d at_private) (
                rw (rename_noreplace-ok private source (calm d) at_private at_source)
                  (set_att-ok source old (calm moved) back))),
          (
            get-put source source (regular c old) moved ∙ ground (arith, ==-refl source),
            get-put source target (regular c old) moved
                ∙ ground (
                  arith,
                  eq_iff source target,
                  get-moved private source target (regular c a) d,
                  eq_iff private target,
                  i.private_apart,
                  i.apart,
                  at_target,
                ),
            get-put source private (regular c old) moved
                ∙ ground (
                  arith,
                  eq_iff source private,
                  get-moved private source private (regular c a) d,
                  ==-refl private,
                  i.private_apart,
                ),
          ),
        )

    restore_source-same :
        (a : Option String) (d : Disk)
        → Dict.get source d ≡ some (regular c a)
        → IsText host a
        → a == old ≡ true
        → restore_source host e source (calm d) ≡ (ok tt, calm d)
    unfolding restore_source reattest
    restore_source-same a d at_source t same = rw (i.before) (
        rw (is_ours-calm host source d at_source) (
          rw (read_attestation-calm host source a d at_source t)
            (rw (i.attestation) (rw same refl))))

    restore_source-other :
        (a : Option String) (d : Disk)
        → Dict.get source d ≡ some (regular c a)
        → IsText host a
        → a == old ≡ false
        → restore_source host e source (calm d) ≡ (ok tt, calm (Dict.put source (regular c old) d))
    unfolding restore_source reattest
    restore_source-other a d at_source t other = rw (i.before) (
        rw (is_ours-calm host source d at_source) (
          rw (read_attestation-calm host source a d at_source t)
            (rw (i.attestation) (rw other (set_att-ok source old (calm d) at_source)))))

    restore_source-calm :
        (a : Option String) (d : Disk)
        → Holds d (some (regular c a)) there none
        → IsText host a
        → (d' : Disk) × (restore_source host e source (calm d) ≡ (ok tt, calm d'))
          × Holds d' (some (regular c old)) there none
    unfolding turn act left
    restore_source-calm a d (at_source, at_target, at_private) t = elim (Bool-cases (a == old)) [
      | inl same ↦
          let e' = (option_beq_iff a old).0 same in
          (
            d,
            restore_source-same a d at_source t same,
            (at_source ∙ ap (λ x. some (regular c x)) e', at_target, at_private),
          )
      | inr other ↦ (
        Dict.put source (regular c old) d,
        restore_source-other a d at_source t other,
        (
          get-put source source (regular c old) d ∙ ground (arith, ==-refl source),
          get-put source target (regular c old) d
              ∙ ground (arith, eq_iff source target, i.apart, at_target),
          get-put source private (regular c old) d
              ∙ ground (arith, eq_iff source private, i.private_apart, at_private),
        ),
      )
    ]

    restore_source-gone :
        (d : Disk)
        → Dict.get source d ≡ none
        → restore_source host e source (calm d) ≡ (ok tt, calm d)
    unfolding restore_source reattest
    restore_source-gone d at_source =
        rw (i.before) (rw (is_ours-gone host source (host.sha256 c) d at_source) refl)

    classified-calm :
        (d : Disk) (s t : Option Node)
        → Holds d s t none
        → classified host e (ok tt, calm d) ≡ (
          ok (judge_rename host e (observed_node host.sha256 s) (observed_node host.sha256 t)),
          calm d,
        )
    unfolding classified
    classified-calm d s t (at_source, at_target, at_private) =
        rw (observe-calm host (or_empty e.source) source s d i.source_slot at_source)
          (rw (observe-calm host (or_empty e.target) target t d i.target_slot at_target) refl)

    IsRecovered-undone :
        (r : Outcome (Unit {0})) (d : Disk)
        → r ≡ (ok tt, calm d)
        → Holds d (some (regular c old)) there none
        → IsRecovered (classified host e r)
    unfolding judge_rename observed_beq
    IsRecovered-undone r d done holds =
        let failure : judge_rename host e (present (host.sha256 c))
              (observed_node host.sha256 there)
            ≡ confirmed_failure =
          ground (
            arith,
            (is_intended_iff e.before (present (host.sha256 c))).1 i.before,
            (is_intended_iff e.destination_before (observed_node host.sha256 there)).1
                i.destination_before,
          ) in
        undone d
          (ap (classified host e) done
            ∙ classified-calm d (some (regular c old)) there holds
            ∙ rw failure refl)
          holds

    IsRecovered-completed :
        (r : Outcome (Unit {0})) (d : Disk)
        → r ≡ (ok tt, calm d)
        → Holds d none (some (regular c (some new))) none
        → IsRecovered (classified host e r)
    unfolding judge_rename observed_beq
    IsRecovered-completed r d done holds =
        let success : judge_rename host e absent (present (host.sha256 c)) ≡ confirmed_success =
          ground (arith, (is_intended_iff e.intended (present (host.sha256 c))).1 i.intended) in
        completed d
          (ap (classified host e) done
            ∙ classified-calm d none (some (regular c (some new))) holds
            ∙ rw success refl)
          holds

    complete_rename-no_file :
        (d : Disk)
        → Dict.get private d ≡ none
        → complete_rename host e private source target (calm d)
          ≡ restore_source host e source (calm d)
    unfolding complete_rename complete leaf_kind kind_of turn act left
    complete_rename-no_file d at_private = rw at_private refl

    complete_rename-file :
        (a : Option String) (d : Disk)
        → Dict.get private d ≡ some (regular c a)
        → complete_rename host e private source target (calm d)
          ≡ forward_or_back host e private source target
              (is_reattested host e.rid (or_empty e.target) (checked host a))
              (calm d)
    unfolding complete_rename complete move_private raw_attestation attestation_of leaf_kind kind_of
        turn act left
    complete_rename-file a d at_private = rw at_private (rw at_private refl)

    forward-free :
        (a : Option String) (d : Disk)
        → Dict.get private d ≡ some (regular c a)
        → Dict.get target d ≡ none
        → forward_or_back host e private source target true (calm d)
          ≡ (ok tt, calm (Dict.put target (regular c a) (Dict.remove private d)))
    unfolding forward_or_back placed leaf_kind kind_of turn act left
    forward-free a d at_private at_target =
        rw at_target
          (rw (i.has_renameat2) (rename_noreplace-ok private target (calm d) at_private at_target))

    forward-taken :
        (n : Node) (d : Disk)
        → Dict.get target d ≡ some n
        → forward_or_back host e private source target true (calm d)
          ≡ roll_back host e private source (calm d)
    unfolding forward_or_back placed leaf_kind kind_of turn act left
    forward-taken special d at_target = rw at_target refl
    forward-taken (regular x a) d at_target = rw at_target refl

    rolled_back :
        (a : Option String) (d : Disk)
        → complete_rename host e private source target (calm d)
          ≡ roll_back host e private source (calm d)
        → Holds d none there (some (regular c a))
        → IsRecovered (classified host e (complete_rename host e private source target (calm d)))
    rolled_back a d same holds =
        let (d', r, after) = roll_back-calm a d holds in
        IsRecovered-undone (complete_rename host e private source target (calm d)) d' (same ∙ r)
          after

    rolled_forward :
        (d : Disk)
        → Holds d none none (some (regular c (some new)))
        → IsRecovered (classified host e (complete_rename host e private source target (calm d)))
    unfolding forward_or_back
    rolled_forward d (at_source, at_target, at_private) =
        let placed_now = Dict.put target (regular c (some new)) (Dict.remove private d) in
        IsRecovered-completed (complete_rename host e private source target (calm d)) placed_now
          (complete_rename-file (some new) d at_private
            ∙ rw (i.new_is_ours) (forward-free (some new) d at_private at_target))
          (
            get-moved private target source (regular c (some new)) d
                ∙ ground (
                  arith,
                  eq_iff target source,
                  i.apart,
                  eq_iff private source,
                  i.private_apart,
                  at_source,
                ),
            get-moved private target target (regular c (some new)) d
                ∙ ground (arith, ==-refl target),
            get-moved private target private (regular c (some new)) d
                ∙ ground (arith, eq_iff target private, ==-refl private, i.private_apart),
          )

    complete_rename-IsRecovered :
        (d : Disk)
        → IsInterrupted d
        → IsRecovered (classified host e (complete_rename host e private source target (calm d)))
    unfolding forward_or_back
    complete_rename-IsRecovered d (untouched holds) =
        let (d', r, after) = restore_source-calm old d holds i.old_is_text in
        IsRecovered-undone _ d' (complete_rename-no_file d holds.2 ∙ r) after
    complete_rename-IsRecovered d (moved_back holds) =
        let (d', r, after) = restore_source-calm (some new) d holds i.new_is_text in
        IsRecovered-undone _ d' (complete_rename-no_file d holds.2 ∙ r) after
    complete_rename-IsRecovered d (finished holds) =
        IsRecovered-completed _ d
          (complete_rename-no_file d holds.2 ∙ restore_source-gone d holds.0) holds
    complete_rename-IsRecovered d (claimed holds) =
        rolled_back old d (complete_rename-file old d holds.2 ∙ rw (i.old_is_not) refl) holds
    complete_rename-IsRecovered d (attested holds) = go there refl
      where
        go :
            (n : Option Node)
            → there ≡ n
            → IsRecovered
                (classified host e (complete_rename host e private source target (calm d)))
        go none free = rolled_forward d (holds.0, holds.1 ∙ free, holds.2)
        go (some n) taken =
            rolled_back (some new) d
              (complete_rename-file (some new) d holds.2
                ∙ rw (i.new_is_ours) (forward-taken n d (holds.1 ∙ taken)))
              holds

    recover_rename-opened :
        (d : Disk)
        → recover_rename host e (calm d)
          ≡ classified host e (complete_rename host e private source target (calm d))
    unfolding recover_rename recover_opened
    recover_rename-opened d =
        rw (i.names_private, i.source_slot, i.target_slot, recover_opened)
          (ap (λ p. classified host e (complete_rename host e p source target (calm d)))
            i.private_slot)

    -- A rename of which the prepared record is there, and that stops after any of its steps, is
    -- completed or undone by the next start, while no one else acts, the C library has renameat2 and
    -- both attestations are text: either the file is at the target with the attestation of the
    -- request, and the verdict is success, or the file is at the source with its old attestation,
    -- which was not of this request, and the target is as it was, and the verdict is failure. The
    -- private name is free again.
    pub recover_rename-IsRecovered :
        (d : Disk) → IsInterrupted d → IsRecovered (recover_rename host e (calm d))
    recover_rename-IsRecovered d at_stop =
        rw (recover_rename-opened d) (complete_rename-IsRecovered d at_stop)
