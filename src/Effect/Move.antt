-- ===== src/Effect/Move.antt =====
-- darm_guard/broker.py, `_rename_protocol`.
use darm_guard.Prelude.{
  Bool, true, String, Option, none, some, ◌==◌, ◌!=◌, string_eq, if◌then◌else◌,
}
use darm_guard.Prelude.Result.{Result, ok, err}
use darm_guard.Intent.{Observed, present}
use darm_guard.Effect.{
  World, exists, not_found, not_implemented, Outcome, Kind, regular_file, rename_noreplace,
  leaf_kind, digest_at, set_att,
}

-- What the protocol returns instead of `None`.
pub data Refusal : Type 0 where
  no_source no_private_name disappeared unsupported changed not_attested taken : Refusal

abbrev pub Move : Type 0
Move = Outcome (Option Refusal)

-- once the source is back under its name
unfoldable pub restored : Refusal → Outcome (Unit {0}) → Move
restored r (ok u, w) = (ok (some r), w)
restored r (err e, w) = (err e, w)

unfoldable pub back : String → String → Refusal → World → Move
unfolding restored rename_noreplace
back private source r w = restored r (rename_noreplace true private source w)

-- the source is back, and gets its attestation again
unfoldable pub reattested : String → Option String → Outcome (Unit {0}) → Move
unfolding restored set_att
reattested source old_att (ok u, w) = restored taken (set_att source old_att w)
reattested source old_att (err e, w) = (err e, w)

unfoldable pub placed : String → String → Option String → Outcome (Unit {0}) → Move
unfolding reattested rename_noreplace
placed private source old_att (ok u, w) = (ok none, w)
placed private source old_att (err exists, w) =
    reattested source old_att (rename_noreplace true private source w)
placed private source old_att (err e, w) = (err e, w)

unfoldable pub place : String → String → String → Option String → World → Move
unfolding placed rename_noreplace
place private source target old_att w =
    placed private source old_att (rename_noreplace true private target w)

unfoldable pub attested : String → String → String → Option String → Outcome (Unit {0}) → Move
unfolding place back
attested private source target old_att (ok u, w) = place private source target old_att w
attested private source target old_att (err e, w) = back private source not_attested w

-- `attest` is the attestation that signing returned, `err` where signing failed, or nothing where
-- the broker has no key.
unfoldable pub attest_claimed :
    String → String → String → Option (Result (Unit {0}) String) → Option String → World → Move
unfolding attested place back set_att
attest_claimed private source target none old_att w = place private source target old_att w
attest_claimed private source target (some (err u)) old_att w = back private source not_attested w
attest_claimed private source target (some (ok a)) old_att w =
    attested private source target old_att (set_att private (some a) w)

module _ (sha256 : String → String) where
  unfoldable pub recorded :
      String
      → String
      → String
      → String
      → Option (Result (Unit {0}) String)
      → Option String
      → Outcome String
      → Move
  unfolding attest_claimed back
  recorded private source target d attest old_att (err e, w) = (err e, w)
  recorded private source target d attest old_att (ok found, w) =
      if found != d
      then back private source changed w
      else attest_claimed private source target attest old_att w

  unfoldable pub inspected :
      String
      → String
      → String
      → String
      → Option (Result (Unit {0}) String)
      → Option String
      → Kind × World
      → Move
  unfolding recorded back digest_at
  inspected private source target d attest old_att (regular_file, w) =
      recorded private source target d attest old_att (digest_at sha256 private w)
  inspected private source target d attest old_att (k, w) = back private source changed w

  unfoldable pub claimed :
      String
      → String
      → String
      → String
      → Option (Result (Unit {0}) String)
      → Option String
      → Outcome (Unit {0})
      → Move
  unfolding inspected leaf_kind
  claimed private source target d attest old_att (ok u, w) =
      inspected private source target d attest old_att (leaf_kind private w)
  claimed private source target d attest old_att (err not_found, w) = (ok (some disappeared), w)
  claimed private source target d attest old_att (err not_implemented, w) =
      (ok (some unsupported), w)
  claimed private source target d attest old_att (err e, w) = (err e, w)

  -- `_rename_protocol`: claim, inspect, attest, place
  unfoldable pub rename_protocol :
      Bool
      → String
      → String
      → Option Observed
      → Option (Result (Unit {0}) String)
      → String
      → Option String
      → World
      → Move
  unfolding claimed rename_noreplace
  rename_protocol has source target (some (present d)) attest private old_att w =
      if private == ""
      then (ok (some no_private_name), w)
      else claimed private source target d attest old_att (rename_noreplace has source private w)
  rename_protocol has source target _ attest private old_att w = (ok (some no_source), w)
