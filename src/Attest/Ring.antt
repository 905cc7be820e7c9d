-- ===== src/Attest/Ring.antt =====
-- Signing and verifying with a ring that rotates its key.
use Prim.Native.String.{◌++◌ as concat}
use text.Mathlib.TextLemmas.{cons-append, nil-append, append_assoc}
use darm_guard.Prelude.{
  ℕ, Char, code, nat_beq, true, false, String, ◌≡◌, ◌≢◌, refl, ap, none, some, string_eq, eq_iff,
  arith, ==-refl,
}
use darm_guard.Prelude.Result.{ok}
use darm_guard.Prelude.Text.{starts_with}
use darm_guard.Prelude.Dict
use darm_guard.Prelude.Dict.{get-put}
use darm_guard.Attest.{
  Scheme, KeyRing, Attestation, v2, bar, message, checkpoint_message, make_ring, rotate,
  public_only, signed, sign, verify, sign_checkpoint, verify_checkpoint, Checkpoint,
}

-- Ed25519: what a private key signs checks under its public key.
pub record IsCorrect (s : Scheme) : Type 0 where
  pub checks : (key m : String) → s.check (s.public_of key) m (s.sign key m) ≡ true

-- A ring holds the public key of its private key under its active id.
pub record IsReady (s : Scheme) (ring : KeyRing) : Type 0 where
  pub key : String
  pub private : ring.private ≡ some key
  pub active : ring.active ≡ some (s.key_id (s.public_of key))
  pub listed : Dict.get (s.key_id (s.public_of key)) ring.publics ≡ some (s.public_of key)

module _ (s : Scheme) where
  pub rotate-IsReady : (fresh : String) (ring : KeyRing) → IsReady s (rotate s fresh ring)
  unfolding rotate
  rotate-IsReady fresh ring = record {
    key = fresh;
    private = refl;
    active = refl;
    listed = rw get-put (rw (==-refl (s.key_id (s.public_of fresh))) refl);
  }

  pub make_ring-IsReady :
      (key : String) (publics : Dict.Dict String) → IsReady s (make_ring s (some key) publics)
  unfolding make_ring
  make_ring-IsReady key publics = record {
    key = key;
    private = refl;
    active = refl;
    listed = rw get-put (rw (==-refl (s.key_id (s.public_of key))) refl);
  }

  -- What a ready ring signs, it verifies, and so does the public ring that an auditor holds: the
  -- attestation that comes back names the request, the target and the digest that were signed.
  pub verify-sign :
      {ring : KeyRing} (rid target digest : String)
      → IsCorrect s
      → IsReady s ring
      → (a : Attestation) × (sign s ring rid target digest ≡ ok (v2 a))
        × (verify s ring (v2 a) ≡ ok a)
        × (verify s (public_only s ring) (v2 a) ≡ ok a)
        × (a.rid ≡ rid)
        × (a.target ≡ target)
        × (a.digest ≡ digest)
  unfolding sign verify public_only signed
  verify-sign {ring} rid target digest correct ready =
      let a = signed s ring.active ready.key rid target digest in
      let valid = correct.checks ready.key (message rid target digest) in
      (
        a,
        ground (arith, ready.private),
        ground (arith, ready.active, ready.listed, valid),
        ground (arith, ready.active, ready.listed, valid),
        refl,
        refl,
        refl,
      )

  -- The same for the chain heads that the broker publishes.
  pub verify_checkpoint-sign_checkpoint :
      {ring : KeyRing} (genesis : String) (count : ℕ) (head : String)
      → IsCorrect s
      → IsReady s ring
      → (cp : Checkpoint) × (sign_checkpoint s ring genesis count head ≡ ok cp)
        × (verify_checkpoint s (public_only s ring) cp ≡ none)
        × (cp.genesis ≡ genesis)
        × (cp.count ≡ count)
        × (cp.head ≡ head)
  unfolding sign_checkpoint verify_checkpoint public_only
  verify_checkpoint-sign_checkpoint {ring} genesis count head correct ready =
      let cp : Checkpoint = record {
        genesis = genesis;
        count = count;
        head = head;
        kid = s.key_id (s.public_of ready.key);
        sig = s.sign ready.key (checkpoint_message genesis count head);
      } in
      let valid = correct.checks ready.key (checkpoint_message genesis count head) in
      (
        cp,
        ground (arith, ready.private, ready.active),
        ground (arith, ready.listed, valid),
        refl,
        refl,
        refl,
      )

  -- A rotation keeps every attestation that verified, unless the new key's id is that of another
  -- key of the ring.
  pub verify-rotate :
      (fresh : String) (ring : KeyRing) (a : Attestation)
      → (Dict.get (s.key_id (s.public_of fresh)) ring.publics ≡ none)
      → verify s ring (v2 a) ≡ ok a
      → verify s (rotate s fresh ring) (v2 a) ≡ ok a
  unfolding verify rotate
  verify-rotate fresh ring a new h = ground (
    arith,
    get-put (s.key_id (s.public_of fresh)) a.kid (s.public_of fresh) ring.publics,
    eq_iff (s.key_id (s.public_of fresh)) a.kid,
  )

-- The message does not tell its fields apart: a bar in the target can be moved into the request id,
-- so one signature serves two attestations, for two paths.
pub message-ambiguous :
    (rid x y digest : String) → message rid (bar x y) digest ≡ message (bar rid x) y digest
message-ambiguous rid x y digest = ap (bar "darm-attest-v2") (simp append_assoc)

starts_with-concat : (p q t : String) → starts_with p q ≡ true → starts_with (concat p t) q ≡ true
unfolding starts_with
starts_with-concat p String.[] t h = refl
starts_with-concat String.[] (String.◌∷◌ d q) t h = cc
starts_with-concat (String.◌∷◌ c p) (String.◌∷◌ d q) t h =
    rw cons-append (ground (arith, starts_with-concat p q t))

starts_attest : starts_with "darm-attest-v2" "darm-a" ≡ true
unfolding starts_with
starts_attest = refl

starts_checkpoint : starts_with "darm-checkpoint-v1" "darm-c" ≡ true
unfolding starts_with
starts_checkpoint = refl

-- No text starts in two ways that differ.
disjoint_at :
    (p : String) (d e : Char) (s : String)
    → nat_beq (code d) (code e) ≡ false
    → starts_with s (concat p (String.◌∷◌ d "")) ≡ true
    → starts_with s (concat p (String.◌∷◌ e "")) ≡ true
    → ⊥
unfolding starts_with
disjoint_at String.[] d e String.[] n h k = let h' = rw nil-append at h in cc
disjoint_at String.[] d e (String.◌∷◌ c s) n h k =
    let h' = rw nil-append at h in let k' = rw nil-append at k in ground arith
disjoint_at (String.◌∷◌ b p) d e String.[] n h k = let h' = rw cons-append at h in cc
disjoint_at (String.◌∷◌ b p) d e (String.◌∷◌ c s) n h k =
    let h' = rw cons-append at h in
    let k' = rw cons-append at k in disjoint_at p d e s n (ground arith) (ground arith)

disjoint : (s : String) → starts_with s "darm-a" ≡ true → starts_with s "darm-c" ≡ true → ⊥
disjoint s h k = disjoint_at "darm-" "a" "c" s refl h k

-- Neither kind of signed message is ever of the other kind.
pub message-ne-checkpoint_message :
    (rid target digest genesis : String) (count : ℕ) (head : String)
    → message rid target digest ≢ checkpoint_message genesis count head
message-ne-checkpoint_message rid target digest genesis count head e =
    disjoint (message rid target digest)
      (starts_with-concat "darm-attest-v2" "darm-a" _ starts_attest)
      (rw e (starts_with-concat "darm-checkpoint-v1" "darm-c" _ starts_checkpoint))
