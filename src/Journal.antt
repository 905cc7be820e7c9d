-- ===== src/Journal.antt =====
-- darm_guard/broker.py, `Broker._record` and `_latest_entries`: the records of the audit log, as
-- those who read the log see them.
pub mod Latest
pub mod Tests
use darm_guard.Prelude.{
  Bool, true, false, not, ◌&&◌, ◌||◌, String, Option, none, some, List, [], ◌∷◌, ◌==◌, string_eq,
  if◌then◌else◌,
}
use darm_guard.Prelude.Dict
use darm_guard.Prelude.Dict.{Dict}
use darm_guard.Attest.{Op, write, delete}
use darm_guard.Intent.{Observed}
use darm_guard.Intent.Store.{Reconciliation, confirmed_success}

pub data Event : Type 0 where
  decision duplicate prepared outcome reconciled other : Event

-- the `effect` of a response
pub data Effected : Type 0 where
  no_effect succeeded failed unknown already_applied : Effected

-- A record of the log: the members that are read again. A member that is `None`, missing or empty is
-- `none`.
pub record Record : Type 0 where
  pub event : Event
  pub rid : String
  pub tool : Option String
  pub hash : Option String
  pub effect : Option Effected
  pub reconciliation : Option Reconciliation
  pub target : Option String
  pub source : Option String
  pub private : Option String
  pub before : Option Observed
  pub intended : Option Observed
  pub destination_before : Option Observed
  pub source_attestation : Option String
  pub key : Option String

abbrev pub closes : Event → Bool
closes outcome = true
closes reconciled = true
closes _ = false

abbrev is_succeeded : Option Effected → Bool
is_succeeded (some succeeded) = true
is_succeeded _ = false

abbrev is_confirmed : Option Reconciliation → Bool
is_confirmed (some confirmed_success) = true
is_confirmed _ = false

-- the record says that an effect of its request is there
unfoldable pub is_effective : Record → Bool
is_effective r = closes r.event && (is_succeeded r.effect || is_confirmed r.reconciliation)

abbrev pub is_tool : String → Option String → Bool
is_tool name none = false
is_tool name (some t) = t == name

abbrev pub op_of : Record → Op
op_of r = if is_tool "delete_file" r.tool then delete else write

abbrev pub Entries : Type 0
Entries = Dict (String × Op)

note_source : Record → Option String → Entries → Entries
unfolding Dict.put
note_source r none latest = latest
note_source r (some source) latest =
    if is_tool "rename_file" r.tool then Dict.put source (r.rid, delete) latest else latest

note_target : Record → Option String → Entries → Entries
unfolding Dict.put note_source
note_target r none latest = latest
note_target r (some target) latest =
    note_source r r.source (Dict.put target (r.rid, op_of r) latest)

-- one line of the log
unfoldable pub note : Record → Entries → Entries
unfolding note_target is_effective
note r latest = if is_effective r then note_target r r.target latest else latest

unfoldable pub latest_from : Entries → List Record → Entries
unfolding note
latest_from latest [] = latest
latest_from latest (r ∷ rest) = latest_from (note r latest) rest

unfoldable pub logged_requests : List Record → List String
logged_requests [] = []
logged_requests (r ∷ rest) = r.rid ∷ logged_requests rest

-- `_latest_entries`: the latest entry of each path, and the requests that are logged
unfoldable pub latest_entries : List Record → Entries × List String
unfolding latest_from logged_requests
latest_entries rs = (latest_from [] rs, logged_requests rs)
