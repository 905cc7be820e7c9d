-- ===== src/Attest/Reads.antt =====
-- When a read is attributed.
use mathlib.Core.Option.{some-injective}
use darm_guard.Prelude.{
  true, false, String, ◌≡◌, refl, ◌⊎◌, inl, inr, ◌↔◌, Option, none, some, List, string_eq, eq_iff,
  arith, Bool-cases, ==-refl,
}
use darm_guard.Attest.{
  Scheme, Keys, Raw, Checked, Op, write, delete, latest, is_stale, is_attributed, check_attestation,
  judge, broker_verdict, vouched, read_verdict,
}

-- A broker write vouches for these bytes at this path: the attestation on the file verifies, names
-- the path and the digest, and is the log's latest entry for the path.
pub record IsCurrent (s : Scheme) (hmac : String → String → String) (keys : Option Keys)
    (path digest : String) (raw : Option Raw) (last : Option (String × Op)) : Type 0 where
  pub held : Keys
  pub bytes : Raw
  pub attestation : Checked
  pub has_keys : keys ≡ some held
  pub has_bytes : raw ≡ some bytes
  pub verifies : check_attestation s hmac held bytes ≡ some attestation
  pub names_path : attestation.target ≡ path
  pub names_digest : attestation.digest ≡ digest
  pub is_latest : last ≡ some (attestation.rid, write)

module _ (s : Scheme) (hmac : String → String → String) where
  judge-latest :
      (last : Option (String × Op)) (rid : String)
      → is_stale (latest last) rid ≡ false
      → last ≡ some (rid, write)
  unfolding is_stale
  judge-latest none rid h = cc
  judge-latest (some (r, write)) rid h = ground (arith, eq_iff r rid)
  judge-latest (some (r, delete)) rid h = ground arith

  judge-attributed :
      (path digest : String) (last : Option (String × Op)) (c : Option Checked)
      → (is_attributed (judge s hmac path digest (latest last) c) ≡ true) ↔ (
          (a : Checked) × (c ≡ some a)
          × (a.target ≡ path)
          × (a.digest ≡ digest)
          × (last ≡ some (a.rid, write)))
  unfolding judge is_stale
  judge-attributed path digest last none = (λ h. cc, λ h. cc (h.1))
  judge-attributed path digest last (some a) = (
    λ h. (
      a,
      refl,
      ground (arith, eq_iff a.target path),
      ground (arith, eq_iff a.digest digest),
      judge-latest last a.rid (ground arith),
    ),
    λ (b, same, t, d, l).
        let ours : a ≡ b = some-injective a b same in
        rw (ours, t, d, l, ==-refl path, ==-refl digest, is_stale, ==-refl b.rid) refl,
  )

  -- A read is attributed exactly when the principal's manifest names its path and digest, or a
  -- current broker write vouches for them.
  pub read_verdict-attributed :
      (keys : Option Keys) (path digest : String) (raw : Option Raw)
      (manifest : Option (List (List String))) (last : Option (String × Op))
      → (is_attributed (read_verdict s hmac keys path digest raw manifest (latest last)) ≡ true) ↔ (
          (vouched s hmac manifest path digest ≡ true) ⊎ IsCurrent s hmac keys path digest raw last)
  unfolding read_verdict broker_verdict
  read_verdict-attributed keys path digest raw manifest last = (
    λ h. elim (Bool-cases (vouched s hmac manifest path digest)) [
      | inl v ↦ inl v
      | inr v ↦ inr (current keys raw (ground (arith, v)))
    ],
    λ h. elim h [ inl v ↦ ground (arith, v) | inr c ↦ ground (arith, attributed c) ],
  )
    where
      current :
          (k : Option Keys) (r : Option Raw)
          → is_attributed (broker_verdict s hmac k path digest r (latest last)) ≡ true
          → IsCurrent s hmac k path digest r last
      current none r h = cc
      current (some k) none h = cc
      current (some k) (some r) h =
          let (a, v, t, d, l) =
            (judge-attributed path digest last (check_attestation s hmac k r)).0 h in
          record {
            held = k;
            bytes = r;
            attestation = a;
            has_keys = refl;
            has_bytes = refl;
            verifies = v;
            names_path = t;
            names_digest = d;
            is_latest = l;
          }

      attributed :
          IsCurrent s hmac keys path digest raw last
          → is_attributed (broker_verdict s hmac keys path digest raw (latest last)) ≡ true
      attributed c =
          rw (c.has_keys, c.has_bytes)
            ((judge-attributed path digest last (check_attestation s hmac c.held c.bytes)).1
              (c.attestation, c.verifies, c.names_path, c.names_digest, c.is_latest))
