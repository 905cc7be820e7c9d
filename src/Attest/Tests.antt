-- ===== src/Attest/Tests.antt =====
-- A toy signature scheme, in which a key is its own public key, and one signed file.
use Prim.Native.String.{◌++◌ as concat}
use mathlib.Core.Logic.{◌↔◌, ◌⊎◌}
use darm_guard.Prelude.{
  true, false, String, ◌≡◌, refl, Option, none, some, [], ◌==◌, string_eq, ==-refl,
}
use darm_guard.Prelude.Result.{ok}
use darm_guard.Prelude.Dict
use darm_guard.Attest.{
  Scheme, KeyRing, Keys, Attestation, v2, Op, write, latest, message, make_ring, public_only, sign,
  verify, is_attributed, read_verdict, vouched,
}
use darm_guard.Attest.Ring.{IsCorrect, make_ring-IsReady, verify-sign}
use darm_guard.Attest.Reads.{IsCurrent, read_verdict-attributed}

abbrev pub toy : Scheme
toy = record {
  public_of = λ k. k;
  sign = λ k m. concat k m;
  check = λ k m sig. sig == concat k m;
  key_id = λ k. k;
}

pub toy-IsCorrect : IsCorrect toy
toy-IsCorrect = record { checks = λ key m. ==-refl (concat key m) }

abbrev pub ring : KeyRing
ring = make_ring toy (some "k1") []

verify-sign_example :
    (a : Attestation) × (sign toy ring "r1" "/workspace/a" "d1" ≡ ok (v2 a))
    × (verify toy ring (v2 a) ≡ ok a)
    × (verify toy (public_only toy ring) (v2 a) ≡ ok a)
    × (a.rid ≡ "r1")
    × (a.target ≡ "/workspace/a")
    × (a.digest ≡ "d1")
verify-sign_example =
    verify-sign toy {ring = ring} "r1" "/workspace/a" "d1" toy-IsCorrect
      (make_ring-IsReady toy "k1" [])

abbrev attestation : Attestation
attestation = record {
  rid = "r1";
  target = "/workspace/a";
  digest = "d1";
  kid = "k1";
  sig = concat "k1" (message "r1" "/workspace/a" "d1");
}

abbrev pub hmac : String → String → String
hmac secret m = concat secret m

abbrev held_keys : Option Keys
held_keys = some (record { ring = ring; legacy = none })

read_verdict-attributed_example :
    (is_attributed (
        read_verdict toy hmac held_keys "/workspace/a" "d1"
          (some (v2 attestation))
          none
          (latest (some ("r1", write))))
      ≡ true)
    ↔ ((vouched toy hmac none "/workspace/a" "d1" ≡ true)
        ⊎ IsCurrent toy hmac held_keys "/workspace/a" "d1"
            (some (v2 attestation))
            (some ("r1", write)))
read_verdict-attributed_example =
    read_verdict-attributed toy hmac held_keys "/workspace/a" "d1" (some (v2 attestation)) none
      (some ("r1", write))

attributed :
    is_attributed (
      read_verdict toy hmac held_keys "/workspace/a" "d1"
        (some (v2 attestation))
        none
        (latest (some ("r1", write))))
    ≡ true
unfolding read_verdict make_ring Dict.get Dict.put
attributed = refl

deleted_since :
    is_attributed (
      read_verdict toy hmac held_keys "/workspace/a" "d1"
        (some (v2 attestation))
        none
        (latest (some ("r2", Op.delete))))
    ≡ false
unfolding read_verdict make_ring Dict.get Dict.put
deleted_since = refl
