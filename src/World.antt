-- ===== src/World.antt =====
-- darm_guard/broker.py, `verify_world`, `reattest_legacy` and `retire_legacy_secret`: the governed
-- files against the log, in both directions.
pub mod Consistent
pub mod Written
pub mod Retire
pub mod Tests
use Prim.Native.String.{◌++◌ as concat}
use darm_guard.Prelude.{
  Bool, true, false, not, ◌&&◌, ◌||◌, String, Option, none, some, List, [], ◌∷◌, ◌++◌, map, elem,
  any, ◌==◌, ◌!=◌, string_eq, if◌then◌else◌,
}
use darm_guard.Prelude.Dict
use darm_guard.Prelude.Dict.{Dict}
use darm_guard.Prelude.Text.{starts_with}
use darm_guard.Prelude.Result.{Result, ok, err}
use darm_guard.Path.{logical_root}
use darm_guard.Attest.{
  Scheme, Raw, v2, Why, unknown_key, Keys, Checked, SchemeName, scheme_v2, scheme_legacy, Op, write,
  delete, verify, check_attestation, sign,
}
use darm_guard.Journal.{Record, Entries, latest_entries}

-- A file of the walk: its path below the workspace, its name, its attestation (`none` where
-- `getxattr` fails) and its content.
pub record File : Type 0 where
  pub relative : String
  pub name : String
  pub is_link : Bool
  pub raw : Option Raw
  pub content : String

pub data Finding : Type 0 where
  unattested deleted_exists under_unknown_key forged_or_moved changed not_logged superseded gone :
      Finding

pub record Report : Type 0 where
  pub findings : List (String × Finding)
  pub legacy : List String

-- `part in s`
unfoldable pub contains : String → String → Bool
unfolding starts_with
contains part String.[] = part == ""
contains part (String.◌∷◌ c s) =
    let later = contains part s in starts_with (String.◌∷◌ c s) part || later

abbrev pub logical : File → String
logical f = concat logical_root f.relative

-- a link, or a private name of the broker
unfoldable pub is_skipped : File → Bool
unfolding contains
is_skipped f = f.is_link || contains ".darm-tmp-" f.name

unfoldable pub unattested_findings : String → Option (String × Op) → List (String × Finding)
unattested_findings path none = []
unattested_findings path (some (rid, write)) = (path, unattested) ∷ []
unattested_findings path (some (rid, delete)) = (path, deleted_exists) ∷ []

-- the request of a valid attestation against the log
unfoldable pub log_findings :
    String → String → Bool → Option (String × Op) → List (String × Finding)
log_findings path rid false last = (path, not_logged) ∷ []
log_findings path rid true none = []
log_findings path rid true (some (r, delete)) = (path, deleted_exists) ∷ []
log_findings path rid true (some (r, write)) = if r != rid then (path, superseded) ∷ [] else []

abbrev pub is_legacy : SchemeName → Bool
is_legacy scheme_legacy = true
is_legacy scheme_v2 = false

no_report : Report
no_report = record { findings = []; legacy = [] }

found : String → Finding → Report
found path f = record { findings = (path, f) ∷ []; legacy = [] }

abbrev pub joined : Report → Report → Report
joined a b = record { findings = a.findings ++ b.findings; legacy = a.legacy ++ b.legacy }

module _ (s : Scheme) (hmac : String → String → String) (sha256 : String → String) where
  unfoldable pub is_unknown_key : Option Keys → Raw → Bool
  unfolding verify
  is_unknown_key none raw = false
  is_unknown_key (some keys) raw = elim (verify s keys.ring raw) [
    | err unknown_key ↦ true
    | _ ↦ false
  ]

  unfoldable pub checked : Option Keys → Raw → Option Checked
  unfolding check_attestation
  checked none raw = none
  checked (some keys) raw = check_attestation s hmac keys raw

  unfoldable pub valid_report : String → String → Checked → Entries × List String → Report
  unfolding log_findings Dict.get
  valid_report path content a (latest, logged) = record {
    findings =
        (if sha256 content != a.digest then (path, changed) ∷ [] else [])
        ++ log_findings path a.rid (elem a.rid logged) (Dict.get path latest);
    legacy = if is_legacy a.scheme then path ∷ [] else [];
  }

  unfoldable pub attested_report :
      Option Keys → String → String → Raw → Option Checked → Entries × List String → Report
  unfolding valid_report is_unknown_key found
  attested_report keys path content raw none log =
      if is_unknown_key keys raw then found path under_unknown_key else found path forged_or_moved
  attested_report keys path content raw (some a) log =
      if a.target != path then found path forged_or_moved else valid_report path content a log

  unfoldable pub raw_report :
      Option Keys → String → String → Option Raw → Entries × List String → Report
  unfolding unattested_findings attested_report checked Dict.get
  raw_report keys path content none (latest, logged) = record {
    findings = unattested_findings path (Dict.get path latest);
    legacy = [];
  }
  raw_report keys path content (some raw) log =
      attested_report keys path content raw (checked keys raw) log

  -- one file of the walk
  unfoldable pub file_report : Option Keys → Entries × List String → File → Report
  unfolding is_skipped raw_report no_report
  file_report keys log f =
      if is_skipped f then no_report else raw_report keys (logical f) f.content f.raw log

  unfoldable pub walk : Option Keys → Entries × List String → List File → Report
  unfolding file_report no_report
  walk keys log [] = no_report
  walk keys log (f ∷ rest) = joined (file_report keys log f) (walk keys log rest)

  -- the loop over the latest entries; `exists` is `os.path.exists` of the path below the workspace
  unfoldable pub gone_findings : (String → Bool) → Entries → List (String × Finding)
  gone_findings exists [] = []
  gone_findings exists ((target, (rid, delete)) ∷ rest) = gone_findings exists rest
  gone_findings exists ((target, (rid, write)) ∷ rest) =
      let others = gone_findings exists rest in
      if not (exists target) then (target, gone) ∷ others else others

  -- `verify_world`, over the files of the walk and the records of the log
  unfoldable pub verify_world : Option Keys → List File → (String → Bool) → List Record → Report
  unfolding walk gone_findings latest_entries
  verify_world keys files exists rs =
      let seen = walk keys (latest_entries rs) files in
      record {
        findings = seen.findings ++ gone_findings exists (latest_entries rs).0;
        legacy = seen.legacy;
      }

  -- `retire_legacy_secret`: whether the secret was deleted, and the keys
  unfoldable pub retire : Keys → List File → (String → Bool) → List Record → Bool × Keys
  unfolding verify_world
  retire keys files exists rs = elim (verify_world (some keys) files exists rs).legacy [
    | [] ↦ (true, record keys { legacy = none })
    | path ∷ rest ↦ (false, keys)
  ]

  -- What becomes of a legacy file: the attestation that is set, or nothing.
  upgrade_checked : Keys → String → String → Option Checked → Option Raw
  unfolding sign
  upgrade_checked keys path content none = none
  upgrade_checked keys path content (some a) =
      if not (is_legacy a.scheme) || sha256 content != a.digest
      then none
      else elim (sign s keys.ring a.rid path a.digest) [ ok raw ↦ some raw | err why ↦ none ]

  -- one target of the loop of `reattest_legacy`; `opened` is the file that `_open_parent` leads to
  unfoldable pub upgrade : Keys → List (String × Finding) → String → Option File → Option Raw
  unfolding upgrade_checked check_attestation
  upgrade keys findings path none = none
  upgrade keys findings path (some f) =
      if any (λ x. x.0 == path) findings then none else elim f.raw [
        | none ↦ none
        | some raw ↦ upgrade_checked keys path f.content (check_attestation s hmac keys raw)
      ]

  unfoldable pub upgrade_all :
      Keys
      → List (String × Finding)
      → (String → Option File)
      → List String
      → List (String × Option Raw)
  unfolding upgrade
  upgrade_all keys findings opened [] = []
  upgrade_all keys findings opened (path ∷ rest) =
      (path, upgrade keys findings path (opened path)) ∷ upgrade_all keys findings opened rest

  -- `reattest_legacy`: each legacy target with its new attestation, or refused
  unfoldable pub reattest_legacy :
      Keys
      → List File
      → (String → Bool)
      → List Record
      → (String → Option File)
      → List (String × Option Raw)
  unfolding upgrade_all verify_world
  reattest_legacy keys files exists rs opened =
      let r = verify_world (some keys) files exists rs in
      upgrade_all keys r.findings opened r.legacy
