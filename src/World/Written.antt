-- ===== src/World/Written.antt =====
-- `verify_world` on a file that the broker wrote.
use darm_guard.Prelude.{
  true, String, ◌≡◌, refl, inl, eq_iff, Option-cases, sym, ap, ◌∙◌, inr, some, List, [], ◌∷◌, elem,
  string_eq, arith,
}
use darm_guard.Prelude.Result.{Result, ok}
use darm_guard.Attest.{
  Op, Scheme, Raw, v2, Why, Keys, Checked, scheme_v2, write, sign, check_attestation,
}
use darm_guard.Attest.Ring.{IsCorrect, IsReady, verify-sign}
use darm_guard.Journal.{Record, latest_entries, logged_requests}
use darm_guard.Journal.Latest.{latest_entries-last_touch, last_touch, touches}
use darm_guard.World.{File, logical, checked, file_report}
use darm_guard.World.Consistent.{attested, IsAttested, IsCurrentIn, file_report-nil}

touches-rid :
    (path : String) (r : Record) {rid : String} {op : Op}
    → touches path r ≡ some (rid, op)
    → r.rid ≡ rid
touches-rid path r h = ground (arith, h)

last_touch-logged :
    (path rid : String) (op : Op) (rs : List Record)
    → last_touch path rs ≡ some (rid, op)
    → elem rid (logged_requests rs) ≡ true
unfolding logged_requests
last_touch-logged path rid op [] h = cc
last_touch-logged path rid op (r ∷ rest) h = elim (Option-cases (last_touch path rest)) [
  | inl e ↦
      let same : r.rid ≡ rid = touches-rid path r (rw e at h) in
      ground (arith, (eq_iff r.rid rid).1 same)
  | inr (x, e) ↦ ground (arith, last_touch-logged path rid op rest (e ∙ rw e at h))
]

last_touch-current :
    (rid path : String) (rs : List Record)
    → last_touch path rs ≡ some (rid, write)
    → IsCurrentIn (latest_entries rs) path rid
unfolding latest_entries
last_touch-current rid path rs last =
    (last_touch-logged path rid write rs last, inr (latest_entries-last_touch path rs ∙ last))

-- A file that carries an attestation, signed for its path and content by a ring that can sign with a
-- correct scheme, of the request of the last record with an effect that touches the path, where that
-- record writes the path, is not flagged: signing, logging and verification fit together.
pub file_report-written :
    (s : Scheme) (hmac : String → String → String) (sha256 : String → String) (keys : Keys)
    (rid : String) (rs : List Record) (f : File)
    → IsCorrect s
    → IsReady s keys.ring
    → (raw : Raw) → sign s keys.ring rid (logical f) (sha256 f.content) ≡ ok raw
    → f.raw ≡ some raw
    → last_touch (logical f) rs ≡ some (rid, write)
    → (file_report s hmac sha256 (some keys) (latest_entries rs) f).findings ≡ []
unfolding checked check_attestation
file_report-written s hmac sha256 keys rid rs f correct ready raw signed carries last =
    let (a, signs, verifies, in_public, same_rid, same_target, same_digest) =
      verify-sign s {ring = keys.ring} rid (logical f) (sha256 f.content) correct ready in
    let ours : raw ≡ v2 a = same_ok raw (v2 a) (sym signed ∙ signs) in
    let c : Checked = record {
      rid = a.rid;
      target = a.target;
      digest = a.digest;
      scheme = scheme_v2;
    } in
    let i : IsAttested s hmac sha256 (some keys) (latest_entries rs) (logical f) f.content (v2 a) =
      record {
        attestation = c;
        verifies = rw (verifies, checked, check_attestation) refl;
        names_path = same_target;
        names_content = sym same_digest;
        current = rw same_rid (last_touch-current rid (logical f) rs last);
      } in
    (file_report-nil s hmac sha256 (some keys) (latest_entries rs) f).1
      (attested (v2 a) (carries ∙ ap some ours) i)
  where
    same_ok : (x y : Raw) → ◌≡◌ {A = Result Why Raw} (ok x) (ok y) → x ≡ y
    same_ok x y h = cc
