-- ===== src/Checkpoint.antt =====
-- darm_guard/checkpoint.py: signed chain heads, published to a sink, and the check of a log
-- against them.
pub mod Extends
pub mod Interval
pub mod Tests
use darm_guard.Prelude.{
  ℕ, zero, suc, ◌+◌, ◌-◌, max, Bool, true, false, not, String, Option, none, some, List, [], ◌∷◌,
  ◌++◌, length, ltb, ◌==◌, ◌!=◌, string_eq, nat_eq, option_eq, if◌then◌else◌,
}
use darm_guard.Prelude.Result.{Result, ok, err}
use darm_guard.Audit.{Line, Row, entries}
use darm_guard.Attest.{Scheme, KeyRing, Why, Checkpoint, sign_checkpoint, verify_checkpoint}

-- What `check_log` reports about a checkpoint, by its count.
pub data Finding : Type 0 where
  bad_signature : ℕ → Why → Finding
  other_log truncated rewritten : ℕ → Finding

pub record Report : Type 0 where
  pub findings : List Finding
  pub covered : ℕ

-- the exceptions that `make_checkpoint` and `check_log` may raise
pub data CheckError : Type 0 where
  empty_log no_entry_hash : CheckError
  not_signed : Why → CheckError

module _ {C : Type 0} where
  -- `entries[-1]`
  unfoldable pub last_entry : Line C → List (Line C) → Line C
  last_entry e [] = e
  last_entry e (f ∷ rest) = last_entry f rest

  -- `entries[i]` for `i` below the length
  unfoldable pub get_or : List (Line C) → ℕ → Line C → Line C
  get_or [] i d = d
  get_or (e ∷ rest) zero d = e
  get_or (e ∷ rest) (suc i) d = get_or rest i d

  -- `entries[n - 1]`: Python reads the last entry where `n` is 0
  unfoldable pub entry_before : ℕ → Line C → List (Line C) → Line C
  unfolding last_entry get_or
  entry_before zero e rest = last_entry e rest
  entry_before (suc i) e rest = get_or (e ∷ rest) i e

  -- `["entry_hash"]`, with `KeyError` where it is missing
  abbrev pub hash_of : Line C → Result CheckError String
  hash_of e = elim e.entry_hash [ none ↦ err no_entry_hash | some h ↦ ok h ]

  module _ (s : Scheme) where
    make_from : KeyRing → List (Line C) → Result CheckError Checkpoint
    unfolding last_entry
    make_from ring [] = err empty_log
    make_from ring (e ∷ rest) = elim (hash_of e) [
      | err x ↦ err x
      | ok genesis ↦ elim (hash_of (last_entry e rest)) [
        | err x ↦ err x
        | ok head ↦ elim (sign_checkpoint s ring genesis (suc (length rest)) head) [
          | err why ↦ err (not_signed why)
          | ok cp ↦ ok cp
        ]
      ]
    ]

    -- `make_checkpoint`
    unfoldable pub make_checkpoint : List (Row C) → KeyRing → Result CheckError Checkpoint
    unfolding make_from
    make_checkpoint rows ring = make_from ring (entries rows)

    -- a checkpoint of this log, behind the tests of its signature and its genesis
    unfoldable pub check_extent :
        Line C → List (Line C) → Checkpoint → Report → Result CheckError Report
    unfolding entry_before
    check_extent e rest cp r =
        if ltb (suc (length rest)) cp.count
        then ok (record r { findings = r.findings ++ truncated cp.count ∷ [] })
        else elim (hash_of (entry_before cp.count e rest)) [
          | err x ↦ err x
          | ok h ↦
              if h != cp.head
              then ok (record r { findings = r.findings ++ rewritten cp.count ∷ [] })
              else ok (record r { covered = max r.covered cp.count })
        ]

    check_genesis : List (Line C) → Checkpoint → Report → Result CheckError Report
    unfolding check_extent
    check_genesis [] cp r = ok (record r { findings = r.findings ++ other_log cp.count ∷ [] })
    check_genesis (e ∷ rest) cp r = elim (hash_of e) [
      | err x ↦ err x
      | ok genesis ↦
          if cp.genesis != genesis
          then ok (record r { findings = r.findings ++ other_log cp.count ∷ [] })
          else check_extent e rest cp r
    ]

    -- one round of the loop of `check_log`
    unfoldable pub check_one :
        KeyRing → List (Line C) → Checkpoint → Report → Result CheckError Report
    unfolding check_genesis
    check_one ring es cp r = elim (verify_checkpoint s ring cp) [
      | some why ↦ ok (record r { findings = r.findings ++ bad_signature cp.count why ∷ [] })
      | none ↦ check_genesis es cp r
    ]

    unfoldable pub check_all :
        KeyRing → List (Line C) → List Checkpoint → Report → Result CheckError Report
    unfolding check_one
    check_all ring es [] r = ok r
    check_all ring es (cp ∷ rest) r = elim (check_one ring es cp r) [
      | err x ↦ err x
      | ok r' ↦ check_all ring es rest r'
    ]

    -- `check_log`
    unfoldable pub check_log : List (Row C) → List Checkpoint → KeyRing → Result CheckError Report
    unfolding check_all
    check_log rows checkpoints ring =
        check_all ring (entries rows) checkpoints (record { findings = []; covered = 0 })

-- The state of a `Checkpointer`, with the sink that it publishes to. `outages` says of each coming
-- attempt to publish whether the sink fails; past its end the sink works.
pub record Checkpointer : Type 0 where
  pub ring : KeyRing
  pub every : ℕ
  pub last_count : ℕ
  pub last_attempt : ℕ
  pub failures : ℕ
  pub published : ℕ
  pub sink : List Checkpoint
  pub outages : List Bool

-- whether the next attempt fails, and the attempts after it
abbrev pub fails : List Bool → Bool
fails [] = false
fails (b ∷ rest) = b

abbrev pub next_outages : List Bool → List Bool
next_outages [] = []
next_outages (b ∷ rest) = rest

-- the `OSError` that `maybe` returns
pub data PublishError : Type 0 where
  sink_error : PublishError
  sign_error : Why → PublishError

module _ (s : Scheme) where
  attempt_failed : PublishError → Checkpointer → Option PublishError × Checkpointer
  attempt_failed e c = (some e, record c { failures = c.failures + 1 })

  store_checkpoint : Checkpoint → ℕ → Checkpointer → Option PublishError × Checkpointer
  unfolding attempt_failed
  store_checkpoint cp count c =
      if fails c.outages
      then attempt_failed sink_error (record c { outages = next_outages c.outages })
      else (
        none,
        record c {
          last_count = count;
          published = c.published + 1;
          sink = c.sink ++ cp ∷ [];
          outages = next_outages c.outages;
        },
      )

  -- `maybe` behind the test whether a checkpoint is due; a ring that cannot sign raises
  -- `PermissionError`, which is an `OSError`
  attempt : String → ℕ → String → Checkpointer → Option PublishError × Checkpointer
  unfolding store_checkpoint sign_checkpoint
  attempt genesis count head c = elim (sign_checkpoint s c.ring genesis count head) [
    | err why ↦ attempt_failed (sign_error why) c
    | ok cp ↦ store_checkpoint cp count c
  ]

  -- `Checkpointer.maybe`: `none` if nothing was due or it was published, and otherwise the error
  unfoldable pub maybe :
      String → ℕ → String → Bool → Checkpointer → Option PublishError × Checkpointer
  unfolding attempt
  maybe genesis count head true c =
      if count == c.last_count
      then (none, c)
      else attempt genesis count head (record c { last_attempt = count })
  maybe genesis count head false c =
      if ltb (count - max c.last_count c.last_attempt) c.every
      then (none, c)
      else attempt genesis count head (record c { last_attempt = count })
