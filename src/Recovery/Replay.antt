-- ===== src/Recovery/Replay.antt =====
-- `reconcile_pending`: the log after it, and a second start.
use darm_guard.Prelude.{
  String, ◌≡◌, refl, sym, ap, ◌∙◌, inl, inr, Option, none, some, List, [], ◌∷◌, ◌++◌, All, ◌==◌,
  string_eq, arith, eq_iff, ==-refl, Bool-cases, Option-cases, append-nil, append_assoc,
}
use darm_guard.Prelude.Dict
use darm_guard.Prelude.Dict.{Dict, get-put}
use darm_guard.Prelude.Result.{Result, ok, err, Result-cases}
use darm_guard.Intent.Store.{Reconciliation}
use darm_guard.Journal.{reconciled, Record}
use darm_guard.Effect.{World}
use darm_guard.Host.{Host}
use darm_guard.Recovery.Pending.{
  Closing, verdict, Closings, note_prepared, note_closed, prepared_of, closed_of, Restored,
  restore_key, Progress, reconciled_record, with_key, close, closed_by, judge_request, resume_one,
  resume, reconcile_pending,
}

-- every entry is kept
abbrev Extends : Closings → Closings → Type 0
Extends c c' =
    (rid : String) (v : Option Closing) → Dict.get rid c ≡ some v → Dict.get rid c' ≡ some v

-- every request of the list is closed
abbrev pub AllClosed : Closings → Dict Record → Type 0
AllClosed c = All (λ e. (v : Option Closing) × (Dict.get e.0 c ≡ some v))

abbrev AllReconciled : List Record → Type 0
AllReconciled = All (λ r. r.event ≡ reconciled)

abbrev look : String → Closings → Option Closing
look rid c = elim (Dict.get rid c) [ none ↦ none | some v ↦ v ]

abbrev keys_of : Closings → Dict Record → Dict Restored → Dict Restored
keys_of c [] keys = keys
keys_of c ((rid, e) ∷ rest) keys = keys_of c rest (restore_key rid e e.key (look rid c) keys)

prepared_of-append :
    (d : Dict Record) (rs app : List Record)
    → AllReconciled app
    → prepared_of d (rs ++ app) ≡ prepared_of d rs
unfolding prepared_of note_prepared
prepared_of-append d [] [] a = refl
prepared_of-append d [] (r ∷ app) (e, a) = rw e (prepared_of-append d [] app a)
prepared_of-append d (r ∷ rs) app a = prepared_of-append (note_prepared r d) rs app a

closed_of-append :
    (d : Closings) (rs app : List Record) → closed_of d (rs ++ app) ≡ closed_of (closed_of d rs) app
unfolding closed_of
closed_of-append d [] app = refl
closed_of-append d (r ∷ rs) app = closed_of-append (note_closed r d) rs app

-- What a run does to the progress.
record IsRun (rest : Dict Record) (p q : Progress) : Type 0 where
  new : List Record
  appends : q.appended ≡ p.appended ++ new
  all_reconciled : AllReconciled new
  closes : q.closed ≡ closed_of p.closed new
  extends : Extends p.closed q.closed
  all_closed : AllClosed q.closed rest
  keys : q.keys ≡ keys_of q.closed rest p.keys

-- what a round does
record IsRound (rid : String) (e : Record) (p q : Progress) : Type 0 where
  new : List Record
  appends : q.appended ≡ p.appended ++ new
  all_reconciled : AllReconciled new
  closes : q.closed ≡ closed_of p.closed new
  extends : Extends p.closed q.closed
  value : Option Closing
  is_closed : Dict.get rid q.closed ≡ some value
  keys : q.keys ≡ restore_key rid e e.key value p.keys

All-append : (xs ys : List Record) → AllReconciled xs → AllReconciled ys → AllReconciled (xs ++ ys)
All-append [] ys a b = b
All-append (x ∷ xs) ys (e, a) b = (e, All-append xs ys a b)

put-Extends :
    (rid : String) (v : Option Closing) (c : Closings)
    → Dict.get rid c ≡ none
    → Extends c (Dict.put rid v c)
put-Extends rid v c n j x g = get-put rid j v c ∙ elim (Bool-cases (rid == j)) [
  | inr o ↦ rw o g
  | inl o ↦ let same = (eq_iff rid j).0 o in let n' = rw same at n in cc
]

module _ (host : Host) where
  closed-IsRound :
      (rid : String) (e : Record) (v : Reconciliation) (w : World) (p : Progress)
      → Dict.get rid p.closed ≡ none
      → IsRound rid e p (with_key rid e (some (verdict v)) (close rid e v w p))
  unfolding with_key close closed_of note_closed reconciled_record
  closed-IsRound rid e v w p n = record {
    new = reconciled_record rid e v ∷ [];
    appends = refl;
    all_reconciled = (refl, tt);
    closes = refl;
    extends = put-Extends rid (some (verdict v)) p.closed n;
    value = some (verdict v);
    is_closed = get-put rid rid (some (verdict v)) p.closed ∙ ground (arith, ==-refl rid);
    keys = refl;
  }

  closed_by-IsRound :
      (rid : String) (e : Record) (o : Result (Unit {0}) Reconciliation × World) (p : Progress)
      → Dict.get rid p.closed ≡ none
      → (closed_by host.can_close rid e o p).0 ≡ ok tt
      → IsRound rid e p (closed_by host.can_close rid e o p).1
  unfolding closed_by
  closed_by-IsRound rid e (err u, w) p n h = cc
  closed_by-IsRound rid e (ok v, w) p n h = elim (Bool-cases (host.can_close p.appended)) [
    | inr k ↦ let h' = rw (k, closed_by) at h in cc
    | inl k ↦ rw (k, closed_by) (closed-IsRound rid e v w p n)
  ]

  resume_one-IsRound :
      (rid : String) (e : Record) (p : Progress)
      → (resume_one host rid e p).0 ≡ ok tt
      → IsRound rid e p (resume_one host rid e p).1
  unfolding resume_one with_key closed_of
  resume_one-IsRound rid e p h = elim (Option-cases (Dict.get rid p.closed)) [
    | inl n ↦
        rw (n, resume_one)
          (closed_by-IsRound rid e (judge_request host e p.world) p n (rw (n, resume_one) at h))
    | inr (v, n) ↦
        rw (n, resume_one)
          (record {
            new = [];
            appends = sym (append-nil p.appended);
            all_reconciled = tt;
            closes = refl;
            extends = λ j x g. g;
            value = v;
            is_closed = n;
            keys = refl;
          })
  ]

  after_round :
      (rid : String) (e : Record) (rest : Dict Record) (p q r : Progress)
      → IsRound rid e p q
      → IsRun rest q r
      → IsRun ((rid, e) ∷ rest) p r
  after_round rid e rest p q r i j = record {
    new = i.new ++ j.new;
    appends = j.appends ∙ ap (λ l. l ++ j.new) i.appends ∙ append_assoc p.appended i.new j.new;
    all_reconciled = All-append i.new j.new i.all_reconciled j.all_reconciled;
    closes =
        j.closes
        ∙ ap (λ c. closed_of c j.new) i.closes
        ∙ sym (closed_of-append p.closed i.new j.new);
    extends = λ k x g. j.extends k x (i.extends k x g);
    all_closed = ((i.value, j.extends rid i.value i.is_closed), j.all_closed);
    keys =
        j.keys
        ∙ ap (keys_of r.closed rest) (i.keys ∙ rw (j.extends rid i.value i.is_closed, look) refl);
  }

  resume-IsRun :
      (rest : Dict Record) (p : Progress)
      → (resume host rest p).0 ≡ ok tt
      → IsRun rest p (resume host rest p).1
  unfolding resume closed_of
  resume-IsRun [] p h = record {
    new = [];
    appends = sym (append-nil p.appended);
    all_reconciled = tt;
    closes = refl;
    extends = λ j x g. g;
    all_closed = tt;
    keys = refl;
  }
  resume-IsRun ((rid, e) ∷ rest) p h =
      let q = (resume_one host rid e p).1 in
      elim (Result-cases (resume_one host rid e p).0) [
        | inl (u, k) ↦
            rw (k, resume)
              (after_round rid e rest p q (resume host rest q).1 (resume_one-IsRound rid e p k)
                (resume-IsRun rest q (rw (k, resume) at h)))
        | inr (u, k) ↦ let h' = rw (k, resume) at h in cc
      ]

  resume_one-closed :
      (rid : String) (e : Record) (v : Option Closing) (p : Progress)
      → Dict.get rid p.closed ≡ some v
      → resume_one host rid e p ≡ (ok tt, with_key rid e v p)
  unfolding resume_one
  resume_one-closed rid e v p n = rw (n, resume_one) refl

  -- with every request closed there is nothing to do but to restore the keys
  resume-AllClosed :
      (rest : Dict Record) (p : Progress)
      → AllClosed p.closed rest
      → resume host rest p ≡ (ok tt, record p { keys = keys_of p.closed rest p.keys })
  unfolding resume resume_one with_key
  resume-AllClosed [] p a = refl
  resume-AllClosed ((rid, e) ∷ rest) p ((v, n), a) =
      ap
        (λ (x : Result (Unit {0}) (Unit {0}) × Progress). elim x.0 [
          | ok u ↦ resume host rest x.1
          | err u ↦ (err u, x.1)
        ])
        (resume_one-closed rid e v p n)
      ∙ rw (n, look)
          (resume-AllClosed rest (record p { keys = restore_key rid e e.key v p.keys }) a)

  -- After `reconcile_pending`, if no exception ended it, the log with the records that it appended has
  -- every prepared request closed; starting again with that log and the same keys as before then
  -- appends nothing, leaves the world alone, and restores the same keys.
  pub reconcile_pending-again :
      (rs : List Record) (keys : Dict Restored) (w v : World)
      → (reconcile_pending host rs keys w).0 ≡ ok tt
      → (let log = rs ++ (reconcile_pending host rs keys w).1.appended in
          AllClosed (closed_of [] log) (prepared_of [] log)
          × (reconcile_pending host log keys v ≡ (
            ok tt,
            record {
              world = v;
              closed = (reconcile_pending host rs keys w).1.closed;
              keys = (reconcile_pending host rs keys w).1.keys;
              appended = [];
            },
          )))
  unfolding reconcile_pending
  reconcile_pending-again rs keys w v h =
      let start : Progress = record {
        world = w;
        closed = closed_of [] rs;
        keys = keys;
        appended = [];
      } in
      let r = resume-IsRun (prepared_of [] rs) start h in
      let q = (resume host (prepared_of [] rs) start).1 in
      let same_requests : prepared_of [] (rs ++ q.appended) ≡ prepared_of [] rs =
        ap (λ l. prepared_of [] (rs ++ l)) r.appends
        ∙ prepared_of-append [] rs r.new r.all_reconciled in
      let same_closed : closed_of [] (rs ++ q.appended) ≡ q.closed =
        ap (λ l. closed_of [] (rs ++ l)) r.appends ∙ closed_of-append [] rs r.new ∙ sym r.closes in
      rw (same_requests, same_closed)
        (
          r.all_closed,
          resume-AllClosed (prepared_of [] rs)
                (record { world = v; closed = q.closed; keys = keys; appended = [] }) r.all_closed
              ∙ rw (sym r.keys) refl,
        )
