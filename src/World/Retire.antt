-- ===== src/World/Retire.antt =====
-- `retire_legacy_secret`: verification before and after.
use darm_guard.Prelude.{
  Bool, true, String, ◌≡◌, refl, sym, inl, inr, Option, none, some, List, [], ◌∷◌, ◌==◌, string_eq,
  arith, append-eq-nil, Bool-cases,
}
use darm_guard.Attest.{
  Scheme, Raw, v2, v1, garbled, Legacy, Keys, Checked, scheme_legacy, check_attestation,
  check_legacy, verify,
}
use darm_guard.Journal.{Record, Entries, latest_entries}
use darm_guard.World.{
  File, logical, is_skipped, is_unknown_key, checked, valid_report, attested_report, raw_report,
  file_report, walk, verify_world, retire, found,
}

abbrev retired : Keys → Keys
retired keys = record keys { legacy = none }

module _ (s : Scheme) (hmac : String → String → String) (sha256 : String → String)
    (keys : Keys) where
  check_legacy-scheme :
      (o : Option String) (a : Legacy) (c : Checked)
      → check_legacy s hmac o a ≡ some c
      → c.scheme ≡ scheme_legacy
  unfolding check_legacy
  check_legacy-scheme none a c h = cc
  check_legacy-scheme (some secret) a c h = ground arith

  attested_report-retired :
      (path content : String) (raw : Raw) (log : Entries × List String)
      → (attested_report s hmac sha256
          (some keys)
          path
          content
          raw
          (checked s hmac sha256 (some keys) raw)
          log).legacy
        ≡ []
      → attested_report s hmac sha256
          (some keys)
          path
          content
          raw
          (checked s hmac sha256 (some keys) raw)
          log
        ≡ attested_report s hmac sha256
            (some (retired keys))
            path
            content
            raw
            (checked s hmac sha256 (some (retired keys)) raw)
            log
  unfolding attested_report checked check_attestation is_unknown_key found valid_report verify
  attested_report-retired path content (v2 a) log h = refl
  attested_report-retired path content garbled log h = refl
  attested_report-retired path content (v1 a) log h = go _ refl h
    where
      go :
          (c : Option Checked)
          → checked s hmac sha256 (some keys) (v1 a) ≡ c
          → (attested_report s hmac sha256 (some keys) path content (v1 a) c log).legacy ≡ []
          → attested_report s hmac sha256 (some keys) path content (v1 a) c log
            ≡ attested_report s hmac sha256
                (some (retired keys))
                path
                content
                (v1 a)
                (checked s hmac sha256 (some (retired keys)) (v1 a))
                log
      go none e k = refl
      go (some c) e k = elim (Bool-cases (c.target == path)) [
        | inr t ↦ rw t refl
        | inl t ↦ ground (arith, rw (t, check_legacy-scheme _ a c e) at k)
      ]

  file_report-retired :
      (log : Entries × List String) (f : File)
      → (file_report s hmac sha256 (some keys) log f).legacy ≡ []
      → file_report s hmac sha256 (some keys) log f
        ≡ file_report s hmac sha256 (some (retired keys)) log f
  unfolding file_report raw_report
  file_report-retired (latest, logged) f h = elim (Bool-cases (is_skipped f)) [
    | inl k ↦ rw k refl
    | inr k ↦ rw k (go f.raw (rw k at h))
  ]
    where
      go :
          (raw : Option Raw)
          → (raw_report s hmac sha256 (some keys) (logical f) f.content raw (latest, logged)).legacy
            ≡ []
          → raw_report s hmac sha256 (some keys) (logical f) f.content raw (latest, logged)
            ≡ raw_report s hmac sha256
                (some (retired keys))
                (logical f)
                f.content
                raw
                (latest, logged)
      go none k = refl
      go (some raw) k = attested_report-retired (logical f) f.content raw (latest, logged) k

  walk-retired :
      (log : Entries × List String) (files : List File)
      → (walk s hmac sha256 (some keys) log files).legacy ≡ []
      → walk s hmac sha256 (some keys) log files
        ≡ walk s hmac sha256 (some (retired keys)) log files
  unfolding walk
  walk-retired log [] h = refl
  walk-retired log (f ∷ rest) h =
      let (here, there) =
        append-eq-nil (file_report s hmac sha256 (some keys) log f).legacy
          (walk s hmac sha256 (some keys) log rest).legacy h in
      cc (file_report-retired log f here, walk-retired log rest there)

  -- When the secret of version 1 is deleted, verification reports the same before and after, on the
  -- same files and log: no file is attributed by that secret any more.
  pub retire-verify_world :
      (files : List File) (exists : String → Bool) (rs : List Record)
      → (retire s hmac sha256 keys files exists rs).0 ≡ true
      → verify_world s hmac sha256
          (some (retire s hmac sha256 keys files exists rs).1)
          files
          exists
          rs
        ≡ verify_world s hmac sha256 (some keys) files exists rs
  unfolding retire verify_world
  retire-verify_world files exists rs h =
      go (walk s hmac sha256 (some keys) (latest_entries rs) files).legacy refl
    where
      go :
          (l : List String)
          → (walk s hmac sha256 (some keys) (latest_entries rs) files).legacy ≡ l
          → verify_world s hmac sha256
              (some (retire s hmac sha256 keys files exists rs).1)
              files
              exists
              rs
            ≡ verify_world s hmac sha256 (some keys) files exists rs
      go (path ∷ rest) e = let h' = rw (e, retire) at h in cc
      go [] e = rw (e, retire) (rw (sym (walk-retired (latest_entries rs) files e)) cc)
