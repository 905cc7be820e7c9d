-- ===== src/Intent/Store.antt =====
-- darm_guard/broker.py: the broker's intents as state. They are refreshed before a decision,
-- reserved at admission, settled once the outcome is known, and kept on disk.
pub mod Startup
pub mod Revoke
pub mod Conserve
pub mod Tests
use Prim.Native.String.{◌++◌ as concat}
use darm_guard.Prelude.{
  ℕ, Bool, true, false, not, ◌&&◌, ◌||◌, String, Option, none, some, List, [], ◌∷◌, ◌++◌, map,
  filter, ◌==◌, ◌!=◌, string_eq, option_eq, pair_eq, list_eq, if◌then◌else◌,
}
use darm_guard.Prelude.Text.{words, strip, join}
use darm_guard.Prelude.Result.{Result, ok, err}
use darm_guard.Prelude.Dict
use darm_guard.Prelude.Dict.{Dict}
use darm_guard.Intent.{Intent, IntentError, parse_intent, order_intents, intent_line}

-- `file` is the intents file on disk, `none` where it cannot be read; `written` is
-- `_intents_written`; `reserved_file` is what the `.reserved` file holds.
pub record IntentStore : Type 0 where
  pub intents : List Intent
  pub reserved : Dict Intent
  pub has_path : Bool
  pub frozen : Bool
  pub written : Option String
  pub file : Option String
  pub reserved_file : Dict String

unfoldable pub lines_text : List Intent → String
lines_text [] = ""
lines_text (i ∷ rest) = concat (intent_line i) (concat "\n" (lines_text rest))

unfoldable pub reserved_text : Dict Intent → Dict String
reserved_text [] = []
reserved_text ((r, i) ∷ rest) = (r, intent_line i) ∷ reserved_text rest

-- `_persist_intents`
unfoldable pub persist : IntentStore → IntentStore
unfolding lines_text reserved_text
persist st =
    if st.has_path
    then record st {
      file = some (lines_text st.intents);
      written = some (lines_text st.intents);
      reserved_file = reserved_text st.reserved;
    }
    else st

-- `'tool *'` revokes all intents for a tool, an intent line every identical intent; a line that
-- cannot be read is a `ValueError`.
pub data Revocation : Type 0 where
  nothing : Revocation
  all_of : String → Revocation
  identical : Intent → Revocation
  unreadable : Revocation

intent_revocation : Result IntentError Intent → Revocation
intent_revocation (ok i) = identical i
intent_revocation (err _) = unreadable

unfoldable pub read_revocation : String → Revocation
unfolding strip words intent_revocation
read_revocation line = if strip line == "" then nothing else elim (words line) [
  | tool ∷ star ∷ [] ↦
      if star == "*" then all_of tool else intent_revocation (parse_intent (strip line))
  | _ ↦ intent_revocation (parse_intent (strip line))
]

-- the loop of `_refresh_intents` over the revocations file; whatever cannot be read revokes all
unfoldable pub revoke : List Revocation → List Intent → List Intent
revoke [] is = is
revoke (nothing ∷ rest) is = revoke rest is
revoke (all_of tool ∷ rest) is = revoke rest (filter (λ i. i.0 != tool) is)
revoke (identical r ∷ rest) is = revoke rest (filter (λ i. i != r) is)
revoke (unreadable ∷ rest) is = []

-- the test whether someone else edited the file
unfoldable pub freeze : IntentStore → IntentStore
freeze st = elim st.written [
  | none ↦ st
  | some w ↦
      if st.has_path && not st.frozen && st.file != some w then record st { frozen = true } else st
]

apply_revocations : Option (List String) → IntentStore → IntentStore
unfolding revoke read_revocation persist
apply_revocations none st = st
apply_revocations (some lines) st =
    let left = revoke (map read_revocation lines) st.intents in
    if left != st.intents then persist (record st { intents = left }) else st

-- `_refresh_intents`: whether it refuses, and the state. The revocations are the lines of their
-- file, `none` where there is no such file.
unfoldable pub refresh : Option (List String) → IntentStore → Bool × IntentStore
unfolding freeze apply_revocations
refresh revocations st =
    let st' = freeze st in
    if st'.frozen then (true, st') else (false, apply_revocations revocations st')

-- `list.remove`: the first equal intent
unfoldable pub remove_first : Intent → List Intent → List Intent
remove_first i [] = []
remove_first i (j ∷ rest) = if j == i then rest else j ∷ remove_first i rest

-- the part of `_handle` that reserves the matched intent for a request
unfoldable pub reserve : String → Intent → IntentStore → IntentStore
unfolding remove_first persist Dict.put
reserve rid used st =
    persist (record st {
      intents = remove_first used st.intents;
      reserved = Dict.put rid used st.reserved;
    })

pub data Reconciliation : Type 0 where
  confirmed_success confirmed_failure unresolved : Reconciliation

pub data Settlement : Type 0 where
  spent returned kept : Settlement

-- the verdict's effect on the intent
unfoldable pub settlement : Reconciliation → Settlement
settlement confirmed_success = spent
settlement confirmed_failure = returned
settlement unresolved = kept

unfoldable pub settle_with : Settlement → String → Intent → IntentStore → IntentStore
unfolding persist
settle_with kept rid used st = st
settle_with spent rid used st = persist (record st { reserved = Dict.remove rid st.reserved })
settle_with returned rid used st = persist (record st {
  reserved = Dict.remove rid st.reserved;
  intents = order_intents (st.intents ++ used ∷ []);
})

-- `_settle_and_record`: the settlement that is logged, if an intent is reserved, and the state
unfoldable pub settle : String → Reconciliation → IntentStore → Option Settlement × IntentStore
unfolding settlement settle_with
settle rid verdict st = elim (Dict.get rid st.reserved) [
  | none ↦ (none, st)
  | some used ↦ (some (settlement verdict), settle_with (settlement verdict) rid used st)
]
