-- ===== src/Effect/Undo.antt =====
-- The compare-and-swap of a write, name by name: what it leaves on the disk when other processes
-- act before it, and what they lose when they act while it undoes itself.
use darm_guard.Prelude.{
  true, false, ◌&&◌, String, ◌≡◌, ◌≢◌, refl, ◌∙◌, inl, inr, Option, none, some, [], ◌∷◌, ◌==◌,
  string_eq, if◌then◌else◌, arith, eq_iff, Bool-cases, ==-refl,
}
use darm_guard.Prelude.Dict
use darm_guard.Prelude.Dict.{get-put, get-remove}
use darm_guard.Prelude.Result.{ok, err}
use darm_guard.Intent.{absent, present}
use darm_guard.Effect.{Node, regular, special, Disk, World, not_regular, turn, at, rename_exchange}
use darm_guard.Effect.Cas.{
  appeared, changed, finish, undone, inspect_displaced, replace_present, replace_absent,
  cas_replace,
}
use darm_guard.Effect.Calls.{
  rename_exchange-ok, rename_noreplace-ok, rename_noreplace-exists, unlink-ok, digest_at-regular,
  digest_at-special, get-exchanged, get-moved,
}
use darm_guard.Effect.Replace.{calm}

-- Other processes act once, before the first system call.
abbrev pub before_all : (Disk → Disk) → Disk → World
before_all f d = record { disk = d; foreign = f ∷ [] }

module _ (sha256 : String → String) (tmp leaf : String) (mine : Node) where
  exchanged : Node → Disk → Disk
  unfolding Dict.put
  exchanged theirs d = Dict.put leaf mine (Dict.put tmp theirs d)

  undo_calm :
      (theirs : Node) (d : Disk)
      → tmp ≢ leaf
      → undone sha256 tmp (rename_exchange true tmp leaf (calm (exchanged theirs d))) ≡ (
        ok (some changed),
        calm (Dict.remove tmp (Dict.put leaf theirs (Dict.put tmp mine (exchanged theirs d)))),
      )
  unfolding undone turn exchanged finish
  undo_calm theirs d apart =
      let now = exchanged theirs d in
      rw
        (rename_exchange-ok tmp leaf {a = theirs} {b = mine} (calm now)
          (get-exchanged tmp leaf tmp mine theirs d ∙ ground (arith, eq_iff leaf tmp, ==-refl tmp))
          (get-exchanged tmp leaf leaf mine theirs d ∙ ground (arith, ==-refl leaf)))
        (rw
          (unlink-ok tmp {a = mine} (calm (Dict.put leaf theirs (Dict.put tmp mine now))) (
            get-exchanged tmp leaf tmp theirs mine now
            ∙ ground (arith, eq_iff leaf tmp, ==-refl tmp)))
          refl)

  replace_calm :
      (c : String) (a : Option String) (d : String) (f : Disk → Disk) (disk : Disk)
      → tmp ≢ leaf
      → Dict.get tmp (f disk) ≡ some mine
      → Dict.get leaf (f disk) ≡ some (regular c a)
      → cas_replace sha256 true tmp leaf (some (present d)) (before_all f disk) ≡ (
          if sha256 c == d
          then (ok none, calm (Dict.remove tmp (exchanged (regular c a) (f disk))))
          else (
            ok (some changed),
            calm (
                Dict.remove tmp (
                  Dict.put leaf
                    (regular c a)
                    (Dict.put tmp mine (exchanged (regular c a) (f disk))))),
          ))
  unfolding cas_replace replace_present inspect_displaced turn exchanged finish
  replace_calm c a d f disk apart p q =
      let now = exchanged (regular c a) (f disk) in
      let there : Dict.get tmp now ≡ some (regular c a) =
        get-exchanged tmp leaf tmp mine (regular c a) (f disk)
        ∙ ground (arith, eq_iff leaf tmp, ==-refl tmp) in
      rw (rename_exchange-ok tmp leaf {a = mine} {b = regular c a} (before_all f disk) p q) (
        rw (digest_at-regular sha256 tmp {c = c} {a = a} (calm now) there)
          (elim (Bool-cases (sha256 c == d)) [
            | inl e ↦ rw e (rw (unlink-ok tmp {a = regular c a} (calm now) there) refl)
            | inr e ↦ rw e (undo_calm (regular c a) (f disk) apart)
          ]))

  -- A write over a present target, other processes acting before it only, succeeds exactly when
  -- the target has the recorded digest; otherwise it reports a conflict. Either way its private
  -- name is gone, the target holds the new file or is as the others left it, and no other name is
  -- touched.
  pub cas_replace-present :
      (c : String) (a : Option String) (d : String) (f : Disk → Disk) (disk : Disk)
      → tmp ≢ leaf
      → Dict.get tmp (f disk) ≡ some mine
      → Dict.get leaf (f disk) ≡ some (regular c a)
      → let r = cas_replace sha256 true tmp leaf (some (present d)) (before_all f disk) in
        (r.0 ≡ ok (if sha256 c == d then none else some changed))
        × ((n : String)
            → at n r.1 ≡ (
                if tmp == n
                then none
                else if leaf == n && sha256 c == d
                then some mine
                else Dict.get n (f disk)))
  unfolding exchanged
  cas_replace-present c a d f disk apart p q =
      let now = exchanged (regular c a) (f disk) in
      rw (replace_calm c a d f disk apart p q) (elim (Bool-cases (sha256 c == d)) [
        | inl e ↦ rw e (
          refl,
          λ n.
              get-remove tmp n now
              ∙ ground (arith, e, get-exchanged tmp leaf n mine (regular c a) (f disk)),
        )
        | inr e ↦ rw e (
          refl,
          λ n.
              get-remove tmp n (Dict.put leaf (regular c a) (Dict.put tmp mine now))
              ∙ ground (
                arith,
                e,
                q,
                eq_iff leaf n,
                get-exchanged tmp leaf n (regular c a) mine now,
                get-exchanged tmp leaf n mine (regular c a) (f disk),
              ),
        )
      ])

  -- A write to an absent target, other processes acting before it only, succeeds exactly when the
  -- target is still absent; a file that appeared there is left as it is, and a conflict reported.
  pub cas_replace-absent :
      (f : Disk → Disk) (disk : Disk)
      → tmp ≢ leaf
      → Dict.get tmp (f disk) ≡ some mine
      → let r = cas_replace sha256 true tmp leaf (some absent) (before_all f disk) in
        ((Dict.get leaf (f disk) ≡ none)
          → (r.0 ≡ ok none)
            × ((n : String)
                → at n r.1 ≡ (
                    if leaf == n
                    then some mine
                    else if tmp == n
                    then none
                    else Dict.get n (f disk))))
        × ((n : Node)
            → (Dict.get leaf (f disk) ≡ some n)
            → (r.0 ≡ ok (some appeared))
              × ((n : String) → at n r.1 ≡ (if tmp == n then none else Dict.get n (f disk))))
  unfolding cas_replace replace_absent finish turn
  cas_replace-absent f disk apart p = (
    λ q.
        rw (rename_noreplace-ok tmp leaf {a = mine} (before_all f disk) p q)
          (refl, λ n. get-moved tmp leaf n mine (f disk)),
    λ n q.
        rw (rename_noreplace-exists tmp leaf {a = mine} {b = n} (before_all f disk) p q)
          (rw (unlink-ok tmp {a = mine} (calm (f disk)) p) (refl, λ n. get-remove tmp n (f disk))),
  )

  -- The undoing is not atomic: a file that another process puts at the target after the first
  -- exchange and before the second is displaced by the second and then unlinked with the private
  -- name. It is lost, while the conflict says that the change was restored.
  pub cas_replace-loses :
      (theirs later : String) (a b : Option String) (d : String) (disk : Disk)
      → tmp ≢ leaf
      → sha256 theirs ≢ d
      → Dict.get tmp disk ≡ some mine
      → Dict.get leaf disk ≡ some (regular theirs a)
      → let r =
          cas_replace sha256 true tmp leaf
            (some (present d))
            (record { disk = disk; foreign = (λ x. x) ∷ Dict.put leaf (regular later b) ∷ [] }) in
        (r.0 ≡ ok (some changed))
        × ((n : String) → at n r.1 ≡ (if tmp == n then none else Dict.get n disk))
  unfolding cas_replace replace_present inspect_displaced turn exchanged finish undone
  cas_replace-loses theirs later a b d disk apart differs p q =
      let w : World = record {
        disk = disk;
        foreign = (λ x. x) ∷ Dict.put leaf (regular later b) ∷ [];
      } in
      let first = exchanged (regular theirs a) disk in
      let mid = Dict.put leaf (regular later b) first in
      let there : Dict.get tmp mid ≡ some (regular theirs a) =
        get-put leaf tmp (regular later b) first
        ∙ ground (
          arith,
          eq_iff leaf tmp,
          ==-refl tmp,
          get-exchanged tmp leaf tmp mine (regular theirs a) disk,
        ) in
      let replaced : Dict.get leaf mid ≡ some (regular later b) =
        get-put leaf leaf (regular later b) first ∙ ground (arith, ==-refl leaf) in
      let last = Dict.put leaf (regular theirs a) (Dict.put tmp (regular later b) mid) in
      let no : (sha256 theirs == d) ≡ false = ground (arith, eq_iff (sha256 theirs) d) in
      let gone : Dict.get tmp last ≡ some (regular later b) =
        get-exchanged tmp leaf tmp (regular theirs a) (regular later b) mid
        ∙ ground (arith, eq_iff leaf tmp, ==-refl tmp) in
      rw (rename_exchange-ok tmp leaf {a = mine} {b = regular theirs a} w p q) (
        rw
          (digest_at-regular sha256 tmp {c = theirs} {a = a}
            (record { disk = first; foreign = Dict.put leaf (regular later b) ∷ [] }) there)
          (rw no (
            rw
              (rename_exchange-ok tmp leaf {a = regular theirs a} {b = regular later b} (calm mid)
                there replaced)
              (rw (unlink-ok tmp {a = regular later b} (calm last) gone) (
                refl,
                λ n.
                    get-remove tmp n last
                    ∙ ground (
                      arith,
                      q,
                      eq_iff leaf n,
                      get-exchanged tmp leaf n (regular theirs a) (regular later b) mid,
                      get-put leaf n (regular later b) first,
                      get-exchanged tmp leaf n mine (regular theirs a) disk,
                    ),
              )))))

  -- A link or a directory that another process put at the target is displaced, and left under the
  -- private name: the write fails with an error that is no conflict, and yet the target holds the
  -- new file.
  pub cas_replace-special :
      (d : String) (f : Disk → Disk) (disk : Disk)
      → tmp ≢ leaf
      → Dict.get tmp (f disk) ≡ some mine
      → Dict.get leaf (f disk) ≡ some special
      → let r = cas_replace sha256 true tmp leaf (some (present d)) (before_all f disk) in
        (r.0 ≡ err not_regular) × (at leaf r.1 ≡ some mine) × (at tmp r.1 ≡ some special)
  unfolding cas_replace replace_present inspect_displaced turn exchanged
  cas_replace-special d f disk apart p q =
      let there : Dict.get tmp (exchanged special (f disk)) ≡ some special =
        get-exchanged tmp leaf tmp mine special (f disk)
        ∙ ground (arith, eq_iff leaf tmp, ==-refl tmp) in
      rw (rename_exchange-ok tmp leaf {a = mine} {b = special} (before_all f disk) p q) (
        rw (digest_at-special sha256 tmp (calm (exchanged special (f disk))) there) (
          refl,
          get-exchanged tmp leaf leaf mine special (f disk) ∙ ground (arith, ==-refl leaf),
          there,
        ))
