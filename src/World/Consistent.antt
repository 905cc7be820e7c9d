-- ===== src/World/Consistent.antt =====
-- `verify_world`: what a report without findings says.
use darm_guard.Prelude.{
  Bool, true, false, String, ◌≡◌, refl, ap, ◌↔◌, ◌⊎◌, inl, inr, Option, none, some, List, [], ◌∷◌,
  All, elem, ◌==◌, string_eq, arith, eq_iff, append-eq-nil, Bool-cases,
}
use darm_guard.Prelude.Dict
use darm_guard.Attest.{Scheme, Raw, Keys, Checked, Op, write, delete}
use darm_guard.Journal.{Record, Entries, latest_entries}
use darm_guard.World.{
  File, logical, is_skipped, unattested_findings, log_findings, is_unknown_key, checked,
  valid_report, attested_report, raw_report, file_report, walk, gone_findings, verify_world, found,
  no_report,
}

-- The log does not contradict that this request wrote the path last.
abbrev pub IsCurrentIn : Entries × List String → String → String → Type 0
IsCurrentIn (latest, logged) path rid =
    (elem rid logged ≡ true)
    × ((Dict.get path latest ≡ none) ⊎ (Dict.get path latest ≡ some (rid, write)))

-- The attestation verifies, names the path and the content, and the log agrees.
pub record IsAttested (s : Scheme) (hmac : String → String → String) (sha256 : String → String)
    (keys : Option Keys) (log : Entries × List String) (path content : String) (raw : Raw)
    : Type 0 where
  pub attestation : Checked
  pub verifies : checked s hmac sha256 keys raw ≡ some attestation
  pub names_path : attestation.target ≡ path
  pub names_content : sha256 content ≡ attestation.digest
  pub current : IsCurrentIn log path attestation.rid

-- A file is not governed, or unattested where the log knows of no effect, or attested.
pub data IsConsistent (s : Scheme) (hmac : String → String → String) (sha256 : String → String)
    (keys : Option Keys) (log : Entries × List String) (f : File) : Type 0 where
  skipped : is_skipped f ≡ true → IsConsistent s hmac sha256 keys log f
  ungoverned :
      f.raw ≡ none → Dict.get (logical f) log.0 ≡ none → IsConsistent s hmac sha256 keys log f
  attested :
      (raw : Raw)
      → f.raw ≡ some raw
      → IsAttested s hmac sha256 keys log (logical f) f.content raw
      → IsConsistent s hmac sha256 keys log f

unattested_findings-nil :
    (path : String) (o : Option (String × Op)) → (unattested_findings path o ≡ []) ↔ (o ≡ none)
unfolding unattested_findings
unattested_findings-nil path none = (λ h. refl, λ h. refl)
unattested_findings-nil path (some (rid, write)) = (λ h. cc, λ h. cc)
unattested_findings-nil path (some (rid, delete)) = (λ h. cc, λ h. cc)

log_findings-nil :
    (path rid : String) (b : Bool) (o : Option (String × Op))
    → (log_findings path rid b o ≡ []) ↔ ((b ≡ true) × ((o ≡ none) ⊎ (o ≡ some (rid, write))))
unfolding log_findings
log_findings-nil path rid false o = (λ h. cc, λ h. ground (arith, h))
log_findings-nil path rid true none = (λ h. (refl, inl refl), λ h. refl)
log_findings-nil path rid true (some (r, delete)) = (λ h. cc, λ h. ground (arith, h))
log_findings-nil path rid true (some (r, write)) = (
  λ h. (refl, inr (ap (λ x. some (x, write)) ((eq_iff r rid).0 (ground (arith, h))))),
  λ h. ground (arith, h, eq_iff r rid),
)

module _ (s : Scheme) (hmac : String → String → String) (sha256 : String → String)
    (keys : Option Keys) where
  valid_report-nil :
      (path content : String) (a : Checked) (log : Entries × List String)
      → ((valid_report s hmac sha256 path content a log).findings ≡ [])
        ↔ ((sha256 content ≡ a.digest) × IsCurrentIn log path a.rid)
  unfolding valid_report
  valid_report-nil path content a (latest, logged) =
      let l = log_findings-nil path a.rid (elem a.rid logged) (Dict.get path latest) in
      (
        λ h.
            let (here, there) =
              append-eq-nil _ (log_findings path a.rid (elem a.rid logged) (Dict.get path latest))
                h in
            (ground (arith, here, eq_iff (sha256 content) a.digest), l.0 there),
        λ (e, c). rw ((eq_iff (sha256 content) a.digest).1 e) (l.1 c),
      )

  attested_report-nil :
      (path content : String) (raw : Raw) (log : Entries × List String)
      → ((attested_report s hmac sha256 keys path content raw
            (checked s hmac sha256 keys raw)
            log).findings
          ≡ [])
        ↔ IsAttested s hmac sha256 keys log path content raw
  unfolding attested_report found
  attested_report-nil path content raw log = (
    λ h. go (checked s hmac sha256 keys raw) refl h,
    λ (i : IsAttested s hmac sha256 keys log path content raw).
        rw (i.verifies, (eq_iff i.attestation.target path).1 i.names_path)
          ((valid_report-nil path content i.attestation log).1 (i.names_content, i.current)),
  )
    where
      go :
          (c : Option Checked)
          → checked s hmac sha256 keys raw ≡ c
          → (attested_report s hmac sha256 keys path content raw c log).findings ≡ []
          → IsAttested s hmac sha256 keys log path content raw
      go none e h = elim (Bool-cases (is_unknown_key s hmac sha256 keys raw)) [
        | inl u ↦ let h' = rw u at h in cc
        | inr u ↦ let h' = rw u at h in cc
      ]
      go (some a) e h = elim (Bool-cases (a.target == path)) [
        | inr t ↦ let h' = rw t at h in cc
        | inl t ↦
            let (d, c) = (valid_report-nil path content a log).0 (rw t at h) in
            record {
              attestation = a;
              verifies = e;
              names_path = (eq_iff a.target path).0 t;
              names_content = d;
              current = c;
            }
      ]

  pub file_report-nil :
      (log : Entries × List String) (f : File)
      → ((file_report s hmac sha256 keys log f).findings ≡ [])
        ↔ IsConsistent s hmac sha256 keys log f
  unfolding file_report raw_report no_report
  file_report-nil (latest, logged) f = (
    λ h. elim (Bool-cases (is_skipped f)) [ inl k ↦ skipped k | inr k ↦ go f.raw refl (rw k at h) ],
    λ c. elim (Bool-cases (is_skipped f)) [ inl k ↦ rw k refl | inr k ↦ rw k (back k c) ],
  )
    where
      go :
          (raw : Option Raw)
          → f.raw ≡ raw
          → (raw_report s hmac sha256 keys (logical f) f.content raw (latest, logged)).findings ≡ []
          → IsConsistent s hmac sha256 keys (latest, logged) f
      go none e h =
          ungoverned e ((unattested_findings-nil (logical f) (Dict.get (logical f) latest)).0 h)
      go (some raw) e h =
          attested raw e ((attested_report-nil (logical f) f.content raw (latest, logged)).0 h)

      back :
          is_skipped f ≡ false
          → IsConsistent s hmac sha256 keys (latest, logged) f
          → (raw_report s hmac sha256 keys (logical f) f.content f.raw (latest, logged)).findings
            ≡ []
      back k (skipped y) = ground (arith, k, y)
      back k (ungoverned e n) =
          rw e ((unattested_findings-nil (logical f) (Dict.get (logical f) latest)).1 n)
      back k (attested raw e i) =
          rw e ((attested_report-nil (logical f) f.content raw (latest, logged)).1 i)

  walk-nil :
      (log : Entries × List String) (files : List File)
      → ((walk s hmac sha256 keys log files).findings ≡ [])
        ↔ All (IsConsistent s hmac sha256 keys log) files
  unfolding walk no_report
  walk-nil log [] = (λ h. tt, λ h. refl)
  walk-nil log (f ∷ rest) = (
    λ h.
        let (here, there) =
          append-eq-nil (file_report s hmac sha256 keys log f).findings
            (walk s hmac sha256 keys log rest).findings h in
        ((file_report-nil log f).0 here, (walk-nil log rest).0 there),
    λ (here, there). rw ((file_report-nil log f).1 here) ((walk-nil log rest).1 there),
  )

  -- every path that the log says was written last is there
  abbrev pub AllThere : (String → Bool) → Entries → Type 0
  AllThere exists = All (λ e. e.1.1 ≡ write → exists e.0 ≡ true)

  gone_findings-nil :
      (exists : String → Bool) (latest : Entries)
      → (gone_findings s hmac sha256 exists latest ≡ []) ↔ AllThere exists latest
  unfolding gone_findings
  gone_findings-nil exists [] = (λ h. tt, λ h. refl)
  gone_findings-nil exists ((t, (rid, delete)) ∷ rest) =
      let i = gone_findings-nil exists rest in (λ h. (λ e. cc, i.0 h), λ h. i.1 h.1)
  gone_findings-nil exists ((t, (rid, write)) ∷ rest) =
      let i = gone_findings-nil exists rest in
      elim (Bool-cases (exists t)) [
        | inl e ↦ rw e (λ h. (λ w. refl, i.0 h), λ h. i.1 h.1)
        | inr e ↦ rw e (λ h. cc, λ h. let absurdity : false ≡ true = h.0 refl in cc)
      ]

  -- Verification finds nothing exactly when every file of the workspace is a private name or a link,
  -- or carries no attestation and the log knows of no effect at its path, or carries an attestation
  -- that verifies, for its path, its content and a logged request that the log does not contradict;
  -- and every path that the log says was written last is there.
  pub verify_world-IsConsistent :
      (files : List File) (exists : String → Bool) (rs : List Record)
      → ((verify_world s hmac sha256 keys files exists rs).findings ≡ []) ↔ (
          All (IsConsistent s hmac sha256 keys (latest_entries rs)) files
          × AllThere exists (latest_entries rs).0)
  unfolding verify_world
  verify_world-IsConsistent files exists rs =
      let w = walk-nil (latest_entries rs) files in
      let g = gone_findings-nil exists (latest_entries rs).0 in
      (
        λ h.
            let (here, there) =
              append-eq-nil (walk s hmac sha256 keys (latest_entries rs) files).findings
                (gone_findings s hmac sha256 exists (latest_entries rs).0) h in
            (w.0 here, g.0 there),
        λ (here, there). rw (w.1 here) (g.1 there),
      )
