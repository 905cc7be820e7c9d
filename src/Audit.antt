-- ===== src/Audit.antt =====
-- darm_guard/broker.py, `AuditLog`: the hash-chained log; and `chain_problems` of
-- darm_guard/evidence.py, the auditor's reading of the same chain.
pub mod Chain
pub mod Tamper
pub mod Evidence
pub mod Tests
use darm_guard.Prelude.{
  ℕ, suc, ◌+◌, max, Bool, true, false, not, ◌&&◌, ◌||◌, String, Option, none, some, List, [], ◌∷◌,
  ◌++◌, ◌==◌, ◌!=◌, string_eq, option_eq, if◌then◌else◌,
}
use darm_guard.Prelude.Result.{Result, ok, err}

-- The `ts` of a line that has one: the empty text, which counts as none, a time, or a text that
-- `datetime.fromisoformat` refuses.
pub data Stamp : Type 0 where
  empty : Stamp
  at : ℕ → Stamp
  unreadable : String → Stamp

-- One JSON line: what the caller recorded, and the three fields that `append` adds.
pub record Line (C : Type 0) : Type 0 where
  pub content : C
  pub prev_hash : Option String
  pub ts : Option Stamp
  pub entry_hash : Option String

-- A line of the file may be blank, and is then skipped.
pub data Row (C : Type 0) : Type 0 where
  blank : Row C
  entry : Line C → Row C

pub record AuditLog (C : Type 0) : Type 0 where
  pub rows : List (Row C)
  pub prev : String
  pub last_ts : Option ℕ
  pub count : ℕ
  pub genesis : Option String

pub data LoadError : Type 0 where
  broken : ℕ → LoadError
  no_entry_hash : LoadError
  bad_time : ℕ → LoadError

-- What `chain_problems` reports, with the number of the entry: it does not follow the one before,
-- or its contents do not match its hash.
pub data Problem : Type 0 where
  not_following mismatch : ℕ → Problem

-- `"0" * 64`
abbrev pub zero_hash : String
zero_hash = "0000000000000000000000000000000000000000000000000000000000000000"

-- `max(self.last_ts, ts) if self.last_ts else ts`
abbrev pub later : Option ℕ → ℕ → Option ℕ
later none ts = some ts
later (some t) ts = some (max t ts)

abbrev pub later_of : Option ℕ → Option Stamp → Option ℕ
later_of last (some (at ts)) = later last ts
later_of last _ = last

-- `datetime.fromisoformat` raises
abbrev pub is_unreadable : Option Stamp → Bool
is_unreadable (some (unreadable s)) = true
is_unreadable _ = false

abbrev pub first_of : Option String → String → Option String
first_of none h = some h
first_of (some g) h = some g

module _ {C : Type 0} where
  -- the lines that are not blank
  unfoldable pub entries : List (Row C) → List (Line C)
  entries [] = []
  entries (blank ∷ rest) = entries rest
  entries (entry e ∷ rest) = e ∷ entries rest

  abbrev pub empty_log : AuditLog C
  empty_log = record { rows = []; prev = zero_hash; last_ts = none; count = 0; genesis = none }

-- `hash` is SHA-256 of the entry's JSON with sorted keys, before `entry_hash` is added.
module _ {C : Type 0} (hash : C → Option String → Option Stamp → String) where
  unfoldable pub body_hash : Line C → String
  body_hash e = hash e.content e.prev_hash e.ts

  -- what the loop of `__init__` keeps for one more entry
  unfoldable pub load_entry : ℕ → Line C → String → AuditLog C → Result LoadError (AuditLog C)
  unfolding body_hash
  load_entry n e h log =
      if e.prev_hash != some log.prev || body_hash e != h
      then err (broken n)
      else if is_unreadable e.ts
      then err (bad_time n)
      else ok (record {
        rows = log.rows ++ entry e ∷ [];
        prev = h;
        last_ts = later_of log.last_ts e.ts;
        count = log.count + 1;
        genesis = first_of log.genesis h;
      })

  unfoldable pub load_row : ℕ → Row C → AuditLog C → Result LoadError (AuditLog C)
  unfolding load_entry
  load_row n blank log = ok (record log { rows = log.rows ++ blank ∷ [] })
  load_row n (entry e) log = elim e.entry_hash [
    | none ↦ err no_entry_hash
    | some h ↦ load_entry n e h log
  ]

  unfoldable pub load_rows : ℕ → List (Row C) → AuditLog C → Result LoadError (AuditLog C)
  unfolding load_row
  load_rows n [] log = ok log
  load_rows n (row ∷ rest) log = elim (load_row n row log) [
    | ok log' ↦ load_rows (suc n) rest log'
    | err e ↦ err e
  ]

  -- `AuditLog.__init__` over the lines of the file
  unfoldable pub load : List (Row C) → Result LoadError (AuditLog C)
  unfolding load_rows
  load rows = load_rows 0 rows empty_log

  abbrev pub new_line : C → String → ℕ → Line C
  new_line content prev now = record {
    content = content;
    prev_hash = some prev;
    ts = some (at now);
    entry_hash = some (hash content (some prev) (some (at now)));
  }

  -- the part of `append` under the lock
  unfoldable pub append_entry : C → ℕ → AuditLog C → AuditLog C
  append_entry content now log = record {
    rows = log.rows ++ entry (new_line content log.prev now) ∷ [];
    prev = hash content (some log.prev) (some (at now));
    last_ts = later log.last_ts now;
    count = log.count + 1;
    genesis = first_of log.genesis (hash content (some log.prev) (some (at now)));
  }

  unfoldable pub entry_problems : ℕ → Option String → Line C → List Problem
  unfolding body_hash
  entry_problems n prev e =
      (if e.prev_hash != prev then not_following n ∷ [] else [])
      ++ (if some (body_hash e) != e.entry_hash then mismatch n ∷ [] else [])

  unfoldable pub problems_from : ℕ → Option String → List (Line C) → List Problem
  unfolding entry_problems
  problems_from n prev [] = []
  problems_from n prev (e ∷ rest) =
      entry_problems n prev e ++ problems_from (suc n) e.entry_hash rest

  -- `chain_problems`
  unfoldable pub chain_problems : List (Row C) → List Problem
  unfolding problems_from entries
  chain_problems rows = problems_from 1 (some zero_hash) (entries rows)
