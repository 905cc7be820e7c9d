-- ===== src/Recovery/Ends.antt =====
-- `reconcile_pending` and the exceptions that may leave it.
use darm_guard.Prelude.{
  Bool, true, false, String, ◌≡◌, refl, inl, inr, Option, none, some, List, [], ◌∷◌, ◌==◌, ◌!=◌,
  string_eq, option_eq, if◌then◌else◌, Bool-cases, Option-cases,
}
use darm_guard.Prelude.Dict
use darm_guard.Prelude.Dict.{Dict}
use darm_guard.Prelude.Result.{Result, ok, err}
use darm_guard.Intent.{Observed, absent, present, unavailable}
use darm_guard.Reconcile.{reconcile}
use darm_guard.Intent.Store.{Reconciliation, unresolved}
use darm_guard.Journal.{Record, is_tool}
use darm_guard.Effect.{
  World, Outcome, no_workspace, not_text, escapes, not_found, exists, not_regular, no_workspace,
  not_implemented, not_text, escapes, turn, at, Kind, no_file, regular_file, special_file,
  leaf_kind, digest_at, rename_noreplace, set_att,
}
use darm_guard.Effect.Calls.{
  rename_noreplace-ok, rename_noreplace-exists, rename_noreplace-no_source, set_att-supported,
  digest_at-supported,
}
use darm_guard.Host.{
  Host, Opened, slot, observe, missing_directory, unopened, raises, refused, as_text,
  raw_attestation, Io, followed, ◌>>=◌, give, read_attestation, or_empty,
}
use darm_guard.Recovery.{
  digest_is, is_ours, roll_back, placed, forward_or_back, move_private, reattest, restore_source,
  complete, complete_rename, is_reattested, checked, classified, recover_opened, recover_rename,
}
use darm_guard.Recovery.Pending.{
  Restored, Progress, prepared_of, closed_by, judge_target, judge_request, resume_one, resume,
  reconcile_pending,
}

-- no exception but an `OSError`
abbrev IsSupported : {A : Type 0} → Io A → Type 0
IsSupported m = (w : World) → escapes (m w).0 ≡ false

-- What the exceptions that nothing catches come from does not occur: the C library has renameat2, the
-- workspace can be opened, every attestation is text, and every verdict can be appended to the log.
pub record IsSound (host : Host) : Type 0 where
  pub has_renameat2 : host.has_renameat2 ≡ true
  pub opens : (path : String) → raises (host.opened path) ≡ false
  pub is_text : (bytes : String) → host.is_text bytes ≡ true
  pub can_close : (appended : List Record) → host.can_close appended ≡ true

followed-IsSupported :
    {A B : Type 0} (f : A → Io B)
    → ((a : A) → IsSupported (f a))
    → (o : Outcome A) → escapes o.0 ≡ false
    → escapes (followed f o).0 ≡ false
followed-IsSupported f h (ok a, w) n = h a w
followed-IsSupported f h (err e, w) n = n

bind-IsSupported :
    {A B : Type 0} (m : Io A) (f : A → Io B)
    → IsSupported m
    → ((a : A) → IsSupported (f a))
    → IsSupported (m >>= f)
bind-IsSupported m f h k w = followed-IsSupported f k (m w) (h w)

rename_noreplace-IsSupported : (src dst : String) → IsSupported (rename_noreplace true src dst)
rename_noreplace-IsSupported src dst w = elim (Option-cases (at src (turn w))) [
  | inl n ↦ rw (rename_noreplace-no_source src dst w n) refl
  | inr (a, p) ↦ elim (Option-cases (at dst (turn w))) [
    | inl n ↦ rw (rename_noreplace-ok src dst w p n) refl
    | inr (b, q) ↦ rw (rename_noreplace-exists src dst w p q) refl
  ]
]

give-IsSupported : {A : Type 0} (a : A) → IsSupported (give a)
give-IsSupported a w = refl

module _ (host : Host) where
  digest_is-IsSupported : (d name : String) (k : Kind) → IsSupported (digest_is host d name k)
  unfolding digest_is
  digest_is-IsSupported d name regular_file =
      bind-IsSupported (digest_at host.sha256 name) (λ found. give (found == d))
        (digest_at-supported host.sha256 name) (λ found. give-IsSupported (found == d))
  digest_is-IsSupported d name no_file = give-IsSupported false
  digest_is-IsSupported d name special_file = give-IsSupported false

  is_ours-IsSupported : (o : Option Observed) (name : String) → IsSupported (is_ours host o name)
  unfolding is_ours
  is_ours-IsSupported (some (present d)) name =
      λ w. digest_is-IsSupported d name (leaf_kind name w).0 (leaf_kind name w).1
  is_ours-IsSupported (some absent) name = give-IsSupported false
  is_ours-IsSupported (some (unavailable why)) name = give-IsSupported false
  is_ours-IsSupported none name = give-IsSupported false

  roll_back-IsSupported :
      (e : Record) (private source : String)
      → host.has_renameat2 ≡ true
      → IsSupported (roll_back host e private source)
  unfolding roll_back
  roll_back-IsSupported e private source has =
      bind-IsSupported (is_ours host e.before private) _ (is_ours-IsSupported e.before private)
        (λ ours.
          bind-IsSupported (rename_noreplace host.has_renameat2 private source) _
            (rw has (rename_noreplace-IsSupported private source)) (λ u. attested ours))
    where
      attested :
          (ours : Bool)
          → IsSupported (if ours then set_att source e.source_attestation else give tt)
      attested true = set_att-supported source e.source_attestation
      attested false = give-IsSupported tt

  forward_or_back-IsSupported :
      (e : Record) (private source target : String) (b : Bool)
      → host.has_renameat2 ≡ true
      → IsSupported (forward_or_back host e private source target b)
  unfolding forward_or_back placed
  forward_or_back-IsSupported e private source target false has =
      roll_back-IsSupported e private source has
  forward_or_back-IsSupported e private source target true has =
      λ w. go (leaf_kind target w).0 (leaf_kind target w).1
    where
      go : (k : Kind) → IsSupported (placed host e private source target k)
      go no_file = rw has (rename_noreplace-IsSupported private target)
      go regular_file = roll_back-IsSupported e private source has
      go special_file = roll_back-IsSupported e private source has

  as_text-IsSupported : (a : Option String) → IsSound host → IsSupported (as_text host a)
  unfolding as_text
  as_text-IsSupported none sound w = refl
  as_text-IsSupported (some bytes) sound w = rw (sound.is_text bytes) refl

  restore_source-IsSupported :
      (e : Record) (source : String) → IsSound host → IsSupported (restore_source host e source)
  unfolding restore_source reattest read_attestation
  restore_source-IsSupported e source sound =
      bind-IsSupported (is_ours host e.before source) (reattest host e source)
        (is_ours-IsSupported e.before source) again
    where
      compared :
          (now : Option String)
          → IsSupported
              (if now != e.source_attestation then set_att source e.source_attestation else give tt)
      compared now w = elim (Bool-cases (now == e.source_attestation)) [
        | inl same ↦ rw same refl
        | inr other ↦ rw other (set_att-supported source e.source_attestation w)
      ]

      again : (b : Bool) → IsSupported (reattest host e source b)
      again false = give-IsSupported tt
      again true =
          bind-IsSupported (read_attestation host source) _
            (λ w.
              as_text-IsSupported (raw_attestation source w).0 sound (raw_attestation source w).1)
            compared

  complete_rename-IsSupported :
      (e : Record) (private source target : String)
      → IsSound host
      → IsSupported (complete_rename host e private source target)
  unfolding complete_rename complete move_private
  complete_rename-IsSupported e private source target sound w =
      go (leaf_kind private w).0 (leaf_kind private w).1
    where
      moved : IsSupported (move_private host e private source target)
      moved v =
          forward_or_back-IsSupported e private source target
            (is_reattested host e.rid (or_empty e.target)
              (checked host (raw_attestation private v).0))
            sound.has_renameat2 (raw_attestation private v).1

      go : (k : Kind) → IsSupported (complete host e private source target k)
      go no_file = restore_source-IsSupported e source sound
      go regular_file = moved
      go special_file = moved

  classified-ok :
      (e : Record) (o : Outcome (Unit {0}))
      → escapes o.0 ≡ false
      → (v : Reconciliation) × ((classified host e o).0 ≡ ok v)
  unfolding classified
  classified-ok e (ok u, w) n = (_, refl)
  classified-ok e (err not_implemented, w) n = cc
  classified-ok e (err not_text, w) n = cc
  classified-ok e (err no_workspace, w) n = (_, refl)
  classified-ok e (err not_found, w) n = (_, refl)
  classified-ok e (err exists, w) n = (_, refl)
  classified-ok e (err not_regular, w) n = (_, refl)

  recover_rename-ok :
      (e : Record) (w : World)
      → IsSound host
      → (v : Reconciliation) × ((recover_rename host e w).0 ≡ ok v)
  unfolding recover_rename recover_opened
  recover_rename-ok e w sound =
      go e.private (host.opened (or_empty e.source)) (host.opened (or_empty e.target))
        (sound.opens (or_empty e.source)) (sound.opens (or_empty e.target))
    where
      go :
          (private : Option String) (source target : Opened)
          → raises source ≡ false
          → raises target ≡ false
          → (v : Reconciliation) × ((recover_opened host e private source target w).0 ≡ ok v)
      go (some private) (slot source) (slot target) s t =
          classified-ok e _
            (complete_rename-IsSupported e (host.beside source private) source target sound w)
      go none source target s t = (unresolved, rw (s, t, recover_opened) refl)
      go (some private) unopened target s t = cc
      go (some private) missing_directory target s t = (unresolved, rw (t, recover_opened) refl)
      go (some private) (refused why) target s t = (unresolved, rw (t, recover_opened) refl)
      go (some private) (slot source) missing_directory s t = (unresolved, refl)
      go (some private) (slot source) unopened s t = cc
      go (some private) (slot source) (refused why) s t = (unresolved, refl)

  judge_request-ok :
      (e : Record) (w : World)
      → IsSound host
      → (v : Reconciliation) × ((judge_request host e w).0 ≡ ok v)
  unfolding judge_request judge_target
  judge_request-ok e w sound = elim (Bool-cases (is_tool "rename_file" e.tool)) [
    | inl t ↦ rw (t, judge_request) (recover_rename-ok e w sound)
    | inr t ↦ rw (t, judge_request) (go e.target e.intended)
  ]
    where
      go :
          (target : Option String) (intended : Option Observed)
          → (v : Reconciliation) × ((judge_target host e target intended w).0 ≡ ok v)
      go none intended = (_, refl)
      go (some target) none = (_, refl)
      go (some target) (some intended) = (
        reconcile e.before (some intended) (observe host target w).0,
        rw (sound.opens target, judge_target) refl,
      )

  closed_by-ok :
      (rid : String) (e : Record) (o : Result (Unit {0}) Reconciliation × World) (p : Progress)
      (v : Reconciliation)
      → IsSound host
      → o.0 ≡ ok v
      → (closed_by host.can_close rid e o p).0 ≡ ok tt
  unfolding closed_by
  closed_by-ok rid e (ok x, w) p v sound h = rw (sound.can_close p.appended) refl
  closed_by-ok rid e (err u, w) p v sound h = cc

  resume_one-ok :
      (rid : String) (e : Record) (p : Progress)
      → IsSound host
      → (resume_one host rid e p).0 ≡ ok tt
  unfolding resume_one
  resume_one-ok rid e p sound = elim (Option-cases (Dict.get rid p.closed)) [
    | inr (v, n) ↦ rw (n, resume_one) refl
    | inl n ↦
        let (v, h) = judge_request-ok e p.world sound in
        rw (n, resume_one) (closed_by-ok rid e (judge_request host e p.world) p v sound h)
  ]

  resume-ok : (rest : Dict Record) (p : Progress) → IsSound host → (resume host rest p).0 ≡ ok tt
  unfolding resume
  resume-ok [] p sound = refl
  resume-ok ((rid, e) ∷ rest) p sound =
      rw (resume_one-ok rid e p sound, resume) (resume-ok rest (resume_one host rid e p).1 sound)

  pub reconcile_pending-ends :
      (rs : List Record) (keys : Dict Restored) (w : World)
      → IsSound host
      → (reconcile_pending host rs keys w).0 ≡ ok tt
  unfolding reconcile_pending
  reconcile_pending-ends rs keys w sound = resume-ok (prepared_of [] rs) _ sound
