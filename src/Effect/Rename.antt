-- ===== src/Effect/Rename.antt =====
-- The rename protocol never loses the file that it moves.
use darm_guard.Prelude.{
  true, false, String, ◌≡◌, ◌≢◌, refl, ap, ◌∙◌, ◌⊎◌, inl, inr, Option, none, some, ◌==◌, string_eq,
  arith, eq_iff, Bool-cases, Option-cases, ==-refl,
}
use darm_guard.Prelude.Dict
use darm_guard.Prelude.Dict.{get-put}
use darm_guard.Prelude.Result.{Result, ok, err}
use darm_guard.Intent.{present}
use darm_guard.Effect.{
  Node, regular, special, World, exists, turn, at, rename_noreplace, leaf_kind, kind_of, set_att,
}
use darm_guard.Effect.Move.{
  Refusal, taken, Move, restored, back, reattested, placed, place, attested, attest_claimed,
  recorded, inspected, claimed, rename_protocol,
}
use darm_guard.Effect.Calls.{
  Keeps, at-turn, Keeps-turn, rename_noreplace-ok, rename_noreplace-exists, digest_at-regular,
  leaf_kind-is, set_att-ok, get-moved,
}

-- Where the file is when the protocol ends.
pub data Whereabouts (sha256 : String → String) (private source target d : String)
    (old_att : Option String) (n : Node) (r : Move) : Type 0 where
  -- it succeeded: the file, with the recorded digest, is at the target and not under the private name
  moved :
      (c : String) (a b : Option String)
      → n ≡ regular c a
      → sha256 c ≡ d
      → r.0 ≡ ok none
      → at target r.1 ≡ some (regular c b)
      → at private r.1 ≡ none
      → Whereabouts sha256 private source target d old_att n r
  -- it refused, and the file is back at the source as it was, and not under the private name
  unmoved :
      (k : Refusal)
      → r.0 ≡ ok (some k)
      → at source r.1 ≡ some n
      → at private r.1 ≡ none
      → Whereabouts sha256 private source target d old_att n r
  -- the source's name was taken meanwhile: an error, and the file's content is under the private name
  stays :
      r.0 ≡ err exists
      → (m : Node) → at private r.1 ≡ some m
      → (n ≡ m)
        ⊎ ((c : String) × (a : Option String) × (b : Option String) × (n ≡ regular c a)
            × (m ≡ regular c b))
      → Whereabouts sha256 private source target d old_att n r
  -- the target's name was taken: the content was moved back to the source, and the last call gives
  -- the source its attestation again
  returned :
      (w : World) (c : String) (a b : Option String)
      → n ≡ regular c a
      → at source w ≡ some (regular c b)
      → at private w ≡ none
      → r ≡ restored taken (set_att source old_att w)
      → Whereabouts sha256 private source target d old_att n r

module _ (sha256 : String → String) (private source target d : String) (old_att : Option String)
    (n : Node) where
  abbrev Ends : Move → Type 0
  Ends r = Whereabouts sha256 private source target d old_att n r

  back-Ends :
      (k : Refusal) (w : World)
      → private ≢ source
      → Keeps private w.foreign
      → at private w ≡ some n
      → Ends (back private source k w)
  unfolding back restored
  back-Ends k w apart keeps p =
      let there : at private (turn w) ≡ some n = at-turn private w keeps ∙ p in
      elim (Option-cases (at source (turn w))) [
        | inl q ↦ rw (rename_noreplace-ok private source w there q) (
            unmoved k refl
              (get-moved private source source n (turn w).disk ∙ ground (arith, ==-refl source))
              (get-moved private source private n (turn w).disk
                ∙ ground (arith, ==-refl private, eq_iff source private)))
        | inr (other, q) ↦
            rw (rename_noreplace-exists private source w there q) (stays refl n there (inl refl))
      ]

  place-Ends :
      (c : String) (a b : Option String) (w : World)
      → private ≢ source
      → private ≢ target
      → n ≡ regular c a
      → sha256 c ≡ d
      → Keeps private w.foreign
      → at private w ≡ some (regular c b)
      → Ends (place private source target old_att w)
  unfolding place placed reattested
  place-Ends c a b w apart apart' e s keeps p =
      let m = regular c b in
      let there : at private (turn w) ≡ some m = at-turn private w keeps ∙ p in
      elim (Option-cases (at target (turn w))) [
        | inl q ↦ rw (rename_noreplace-ok private target w there q) (
            moved c a b e s refl
              (get-moved private target target m (turn w).disk ∙ ground (arith, ==-refl target))
              (get-moved private target private m (turn w).disk
                ∙ ground (arith, ==-refl private, eq_iff target private)))
        | inr (other, q) ↦
            rw (rename_noreplace-exists private target w there q)
              (home (turn w) (Keeps-turn private w keeps) there)
      ]
    where
      home :
          (v : World)
          → Keeps private v.foreign
          → at private v ≡ some (regular c b)
          → Ends (reattested source old_att (rename_noreplace true private source v))
      home v k q =
          let here : at private (turn v) ≡ some (regular c b) = at-turn private v k ∙ q in
          elim (Option-cases (at source (turn v))) [
            | inl o ↦ rw (rename_noreplace-ok private source v here o) (
                returned
                  (record (turn v) {
                    disk = Dict.put source (regular c b) (Dict.remove private (turn v).disk);
                  })
                  c a b e
                  (get-moved private source source (regular c b) (turn v).disk
                    ∙ ground (arith, ==-refl source))
                  (get-moved private source private (regular c b) (turn v).disk
                    ∙ ground (arith, ==-refl private, eq_iff source private))
                  refl)
            | inr (other, o) ↦
                rw (rename_noreplace-exists private source v here o)
                  (stays refl (regular c b) here (inr (c, a, b, e, refl)))
          ]

  attest-Ends :
      (c : String) (a : Option String) (attest : Option (Result (Unit {0}) String)) (w : World)
      → private ≢ source
      → private ≢ target
      → n ≡ regular c a
      → sha256 c ≡ d
      → Keeps private w.foreign
      → at private w ≡ some n
      → Ends (attest_claimed private source target attest old_att w)
  unfolding attest_claimed attested Dict.put
  attest-Ends c a none w apart apart' e s keeps p =
      place-Ends c a a w apart apart' e s keeps (p ∙ ap some e)
  attest-Ends c a (some (err u)) w apart apart' e s keeps p =
      back-Ends Refusal.not_attested w apart keeps p
  attest-Ends c a (some (ok x)) w apart apart' e s keeps p =
      let there : at private (turn w) ≡ some (regular c a) =
        at-turn private w keeps ∙ p ∙ ap some e in
      rw (set_att-ok private (some x) w there) (
        place-Ends c a (some x)
          (record (turn w) { disk = Dict.put private (regular c (some x)) (turn w).disk }) apart
          apart' e s (Keeps-turn private w keeps)
          (get-put private private (regular c (some x)) (turn w).disk
            ∙ ground (arith, ==-refl private)))

  inspect-Ends :
      (attest : Option (Result (Unit {0}) String)) (w : World)
      → private ≢ source
      → private ≢ target
      → Keeps private w.foreign
      → at private w ≡ some n
      → Ends (inspected sha256 private source target d attest old_att (leaf_kind private w))
  unfolding inspected recorded kind_of
  inspect-Ends attest w apart apart' keeps p =
      let there : at private (turn w) ≡ some n = at-turn private w keeps ∙ p in
      rw (leaf_kind-is private w there) (split n refl there (Keeps-turn private w keeps))
    where
      split :
          (m : Node)
          → n ≡ m
          → at private (turn w) ≡ some n
          → Keeps private (turn w).foreign
          → Ends
              (inspected sha256 private source target d attest old_att (kind_of (some m), turn w))
      split special e there k = back-Ends Refusal.changed (turn w) apart k there
      split (regular c a) e there k =
          let t2 : at private (turn (turn w)) ≡ some n = at-turn private (turn w) k ∙ there in
          let k2 = Keeps-turn private (turn w) k in
          rw (digest_at-regular sha256 private (turn w) (t2 ∙ ap some e))
            (elim (Bool-cases (sha256 c == d)) [
              | inl s ↦ rw s (
                  attest-Ends c a attest (turn (turn w)) apart apart' e ((eq_iff (sha256 c) d).0 s)
                    k2 t2)
              | inr s ↦ rw s (back-Ends Refusal.changed (turn (turn w)) apart k2 t2)
            ])

  -- Whatever other processes do between the system calls, as long as they leave the private name
  -- alone, the file that the protocol claims ends up under a name that its record gives: at the
  -- target after a success, back at the source after a refusal, and still under the private name
  -- where the source's name was taken meanwhile. Only content with the recorded digest is moved.
  pub rename_protocol-Whereabouts :
      (attest : Option (Result (Unit {0}) String)) (w : World)
      → private ≢ source
      → private ≢ target
      → private ≢ ""
      → Keeps private w.foreign
      → at private w ≡ none
      → at source (turn w) ≡ some n
      → Whereabouts sha256 private source target d old_att n
          (rename_protocol sha256 true source target (some (present d)) attest private old_att w)
  unfolding rename_protocol claimed Dict.put
  rename_protocol-Whereabouts attest w apart apart' named keeps free p =
      let unnamed : (private == "") ≡ false = ground (arith, eq_iff private "") in
      let w' : World = record (turn w) {
        disk = Dict.put private n (Dict.remove source (turn w).disk);
      } in
      rw unnamed (
        rw (rename_noreplace-ok source private w p (at-turn private w keeps ∙ free)) (
          inspect-Ends attest w' apart apart' (Keeps-turn private w keeps)
            (get-moved source private private n (turn w).disk ∙ ground (arith, ==-refl private))))
