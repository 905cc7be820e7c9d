-- ===== src/Effect/Replace.antt =====
-- The compare-and-swap of a write: what it needs, what it leaves, and what its undoing loses.
use darm_guard.Prelude.{
  true, String, ◌≡◌, ◌≢◌, refl, ap, ◌∙◌, inl, inr, Option, none, some, [], ◌==◌, string_eq, arith,
  eq_iff, Bool-cases, Option-cases,
}
use darm_guard.Prelude.Dict
use darm_guard.Prelude.Dict.{get-put, get-remove}
use darm_guard.Prelude.Result.{ok, err}
use darm_guard.Intent.{present}
use darm_guard.Effect.{
  Node, regular, special, Disk, World, Outcome, turn, at, rename_exchange, unlink, digest_at,
}
use darm_guard.Effect.Cas.{
  Conflict, changed, finish, undone, inspect_displaced, replace_present, cas_replace,
}
use darm_guard.Effect.Calls.{
  Keeps, at-turn, Keeps-turn, rename_exchange-ok, rename_exchange-no_source,
  rename_exchange-no_target, digest_at-regular, digest_at-special, get-exchanged,
}

-- no one else acts from now on
abbrev pub calm : Disk → World
calm d = record { disk = d; foreign = [] }

finish-some : (k : Conflict) (o : Outcome (Unit {0})) → (finish (some k) o).0 ≢ ok none
unfolding finish
finish-some k (ok u, w) e = cc
finish-some k (err x, w) e = cc

undone-some :
    (sha256 : String → String) (tmp : String) (o : Outcome (Unit {0}))
    → (undone sha256 tmp o).0 ≢ ok none
unfolding undone
undone-some sha256 tmp (ok u, w) e = finish-some changed (unlink tmp w) e
undone-some sha256 tmp (err x, w) e = cc

module _ (sha256 : String → String) where
  inspect-recorded :
      (tmp leaf d : String) (n : Node) (w : World)
      → at tmp (turn w) ≡ some n
      → (inspect_displaced sha256 tmp leaf d (digest_at sha256 tmp w)).0 ≡ ok none
      → (c : String) × (a : Option String) × (n ≡ regular c a) × (sha256 c ≡ d)
  unfolding inspect_displaced
  inspect-recorded tmp leaf d special w p h =
      let h' = rw (digest_at-special sha256 tmp w p) at h in cc
  inspect-recorded tmp leaf d (regular c a) w p h =
      let h' = rw (digest_at-regular sha256 tmp w p) at h in
      elim (Bool-cases (sha256 c == d)) [
        | inl e ↦ (c, a, refl, (eq_iff (sha256 c) d).0 e)
        | inr e ↦
            absurd (undone-some sha256 tmp (rename_exchange true tmp leaf (turn w)) (rw e at h'))
      ]

  -- A write over a present target that succeeds has displaced the recorded state: whatever other
  -- processes do between its system calls, as long as they leave its private name alone, a regular
  -- file with the recorded digest was there at the moment of the exchange.
  pub cas_replace-recorded :
      (tmp leaf d : String) (w : World)
      → Keeps tmp w.foreign
      → tmp ≢ leaf
      → (cas_replace sha256 true tmp leaf (some (present d)) w).0 ≡ ok none
      → (c : String) × (a : Option String) × (at leaf (turn w) ≡ some (regular c a))
        × (sha256 c ≡ d)
  unfolding cas_replace replace_present
  cas_replace-recorded tmp leaf d w keeps apart h = elim (Option-cases (at tmp (turn w))) [
    | inl p ↦ let h' = rw (rename_exchange-no_source tmp leaf w p) at h in cc
    | inr (mine, p) ↦ elim (Option-cases (at leaf (turn w))) [
      | inl q ↦ let h' = rw (rename_exchange-no_target tmp leaf w p q) at h in cc
      | inr (theirs, q) ↦
          let w' : World = record (turn w) {
            disk = Dict.put leaf mine (Dict.put tmp theirs (turn w).disk);
          } in
          let displaced : at tmp w' ≡ some theirs =
            get-exchanged tmp leaf tmp mine theirs (turn w).disk
            ∙ ground (arith, eq_iff leaf tmp, eq_iff tmp tmp) in
          let (c, a, e, s) =
            inspect-recorded tmp leaf d theirs w'
              (at-turn tmp w' (Keeps-turn tmp w keeps) ∙ displaced)
              (rw (rename_exchange-ok tmp leaf w p q) at h) in
          (c, a, q ∙ ap some e, s)
    ]
  ]
