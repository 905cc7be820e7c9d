-- ===== src/Effect/Delete.antt =====
-- The compare-and-delete never loses a file that it was not to delete.
use darm_guard.Prelude.{
  true, String, ◌≡◌, ◌≢◌, refl, sym, ap, ◌∙◌, ◌⊎◌, inl, inr, Option, none, some, ◌==◌, string_eq,
  arith, eq_iff, Bool-cases, Option-cases, ==-refl,
}
use darm_guard.Prelude.Dict
use darm_guard.Prelude.Result.{ok}
use darm_guard.Intent.{present}
use darm_guard.Effect.{
  Node, regular, special, World, turn, at, rename_noreplace, leaf_kind, kind_of,
}
use darm_guard.Effect.Cas.{
  changed, displaced, Cas, finish, put_back, delete_recorded, delete_inspected, delete_claimed,
  cas_delete,
}
use darm_guard.Effect.Calls.{
  Keeps, at-turn, Keeps-turn, rename_noreplace-ok, rename_noreplace-exists, unlink-ok,
  digest_at-regular, leaf_kind-is, get-moved,
}

-- Nothing was deleted: the file is back under its own name; or that name holds a file that took it
-- meanwhile, which is left alone, and the file is under the private name that the conflict reports.
abbrev pub Spared : String → String → Node → Cas → Type 0
Spared tmp leaf n r =
    ((r.0 ≡ ok (some changed)) × (at leaf r.1 ≡ some n))
    ⊎ ((other : Node) × (r.0 ≡ ok (some (displaced tmp)))
        × (at leaf r.1 ≡ some other)
        × (at tmp r.1 ≡ some n))

-- The file was deleted, and it was a regular file with the recorded digest.
abbrev pub Deleted : (String → String) → String → Node → Cas → Type 0
Deleted sha256 d n r =
    (r.0 ≡ ok none) × (c : String) × (a : Option String) × (n ≡ regular c a) × (sha256 c ≡ d)

module _ (sha256 : String → String) (tmp leaf : String) (n : Node) where
  put_back-Spared :
      (w : World)
      → Keeps tmp w.foreign
      → at tmp w ≡ some n
      → Spared tmp leaf n (put_back sha256 tmp (rename_noreplace true tmp leaf w))
  unfolding put_back
  put_back-Spared w keeps p =
      let there : at tmp (turn w) ≡ some n = at-turn tmp w keeps ∙ p in
      elim (Option-cases (at leaf (turn w))) [
        | inl q ↦
            rw (rename_noreplace-ok tmp leaf w there q)
              (inl (refl, get-moved tmp leaf leaf n (turn w).disk ∙ ground (arith, ==-refl leaf)))
        | inr (other, q) ↦
            rw (rename_noreplace-exists tmp leaf w there q) (inr (other, refl, q, there))
      ]

  inspected-kept :
      (d : String) (w : World)
      → Keeps tmp w.foreign
      → at tmp w ≡ some n
      → let r = delete_inspected sha256 tmp leaf d (leaf_kind tmp w) in
        Deleted sha256 d n r ⊎ Spared tmp leaf n r
  unfolding delete_inspected delete_recorded kind_of finish
  inspected-kept d w keeps p =
      let there : at tmp (turn w) ≡ some n = at-turn tmp w keeps ∙ p in
      let keeps' = Keeps-turn tmp w keeps in
      rw (leaf_kind-is tmp w there) (split n refl there keeps')
    where
      split :
          (m : Node)
          → n ≡ m
          → at tmp (turn w) ≡ some n
          → Keeps tmp (turn w).foreign
          → let r = delete_inspected sha256 tmp leaf d (kind_of (some n), turn w) in
            Deleted sha256 d n r ⊎ Spared tmp leaf n r
      split special e there keeps' =
          let spared = put_back-Spared (turn w) keeps' there in rw e (inr (rw e at spared))
      split (regular c a) e there keeps' =
          let t2 : at tmp (turn (turn w)) ≡ some (regular c a) =
            at-turn tmp (turn w) keeps' ∙ there ∙ ap some e in
          let k2 = Keeps-turn tmp (turn w) keeps' in
          let spared = put_back-Spared (turn (turn w)) k2 (t2 ∙ ap some (sym e)) in
          rw e (
            rw (digest_at-regular sha256 tmp (turn w) t2) (elim (Bool-cases (sha256 c == d)) [
              | inl s ↦ rw s (
                  rw (unlink-ok tmp (turn (turn w)) (at-turn tmp (turn (turn w)) k2 ∙ t2))
                    (inl (refl, c, a, refl, (eq_iff (sha256 c) d).0 s)))
              | inr s ↦ rw s (inr (rw e at spared))
            ]))

  -- A delete of a file that was recorded as present, where the C library has `renameat2`, with a
  -- private name that is free, and whatever other processes do between the system calls, as long as
  -- they leave the private name alone: the file that is at the target when it is claimed is deleted
  -- only if it is a regular file with the recorded digest, and then no conflict is reported.
  -- Otherwise the file is back at its name and a change is reported, unless another file holds that
  -- name: then the other file is left there, the file is under the private name, and the reported
  -- conflict names it.
  pub cas_delete_spares :
      (d : String) (w : World)
      → Keeps tmp w.foreign
      → tmp ≢ leaf
      → at tmp w ≡ none
      → at leaf (turn w) ≡ some n
      → let r = cas_delete sha256 true tmp leaf (some (present d)) w in
        Deleted sha256 d n r ⊎ Spared tmp leaf n r
  unfolding cas_delete delete_claimed Dict.put
  cas_delete_spares d w keeps apart free p =
      let w' : World = record (turn w) { disk = Dict.put tmp n (Dict.remove leaf (turn w).disk) } in
      rw (rename_noreplace-ok leaf tmp w p (at-turn tmp w keeps ∙ free)) (
        inspected-kept d w' (Keeps-turn tmp w keeps)
          (get-moved leaf tmp tmp n (turn w).disk ∙ ground (arith, ==-refl tmp)))
