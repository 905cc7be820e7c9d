-- ===== src/Keys.antt =====
-- darm_guard/broker.py, the idempotency keys of `Broker._handle`.
pub mod Once
pub mod Tests
use Prim.Native.String.{count}
use darm_guard.Prelude.{
  ℕ, Bool, true, false, not, ◌&&◌, ◌||◌, String, Option, none, some, List, [], ◌∷◌, ◌==◌, ◌!=◌,
  string_eq, option_eq, ltb, if◌then◌else◌,
}
use darm_guard.Prelude.Dict
use darm_guard.Prelude.Dict.{Dict}

pub data Effect : Type 0 where
  succeeded failed unknown : Effect

pub data State : Type 0 where
  pending done dead : State

pub record Prior : Type 0 where
  pub rid : String
  pub hash : Option String
  pub state : State
  pub effect : Option Effect

-- What a request meets on its way through `_handle`: its key, the decision and the hash of the
-- invocation, if there is one, whether the prepared record was written, and the effect of
-- executing it, if it is executed. A rename that is refused for its source's attestation counts as
-- not admitted, and an exception while executing as an unknown effect: both leave the key alike. A
-- request that is refused for the clock comes before all this and leaves no trace.
pub record Attempt : Type 0 where
  pub key : Option String
  pub rid : String
  pub hash : Option String
  pub admitted : Bool
  pub prepared : Bool
  pub effect : Effect

pub data Answer : Type 0 where
  malformed_key different earlier_failed unresolved refused unrecorded : Answer
  already_applied : String → Answer
  performed : Effect → Answer

-- `not key or len(key) > 128`
unfoldable pub is_malformed : Option String → Bool
is_malformed none = false
is_malformed (some k) = k == "" || ltb 128 (count k)

-- the answer to a request whose key is known
unfoldable pub duplicate : Prior → Option String → Answer
duplicate p none = different
duplicate p (some h) = if p.hash != some h then different else elim p.state [
  | done ↦ already_applied p.rid
  | dead ↦ earlier_failed
  | pending ↦ unresolved
]

unfoldable pub state_after : Effect → State
state_after succeeded = done
state_after unknown = pending
state_after failed = dead

unfoldable pub set_key : Option String → Prior → Dict Prior → Dict Prior
unfolding Dict.put
set_key none p keys = keys
set_key (some k) p keys = Dict.put k p keys

-- behind the look-up of the key: the decision, the prepared record, the effect
unfoldable pub perform : Attempt → Dict Prior → Answer × Dict Prior
unfolding set_key state_after
perform a keys =
    if not a.admitted then (refused, keys) else if not a.prepared then (unrecorded, keys) else (
      performed a.effect,
      set_key a.key
          (record {
            rid = a.rid;
            hash = a.hash;
            state = state_after a.effect;
            effect = some a.effect;
          })
          keys,
    )

unfoldable pub look_up : Option Prior → Attempt → Dict Prior → Answer × Dict Prior
unfolding duplicate perform
look_up (some p) a keys = (duplicate p a.hash, keys)
look_up none a keys = perform a keys

unfoldable pub prior : Option String → Dict Prior → Option Prior
unfolding Dict.get
prior none keys = none
prior (some k) keys = Dict.get k keys

-- `_handle`, as far as keys go
unfoldable pub handle_key : Attempt → Dict Prior → Answer × Dict Prior
unfolding is_malformed look_up prior
handle_key a keys =
    if is_malformed a.key then (malformed_key, keys) else look_up (prior a.key keys) a keys
