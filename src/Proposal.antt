-- ===== src/Proposal.antt =====
-- darm_guard/broker.py: what the agent may send, and how it is read.
pub mod Parse
pub mod Tests
use darm_guard.Prelude.{
  ℕ, Bool, true, false, not, ◌&&◌, ◌||◌, String, Option, none, some, List, [], ◌∷◌, map, all, elem,
  distinct, ◌==◌, string_eq, if◌then◌else◌,
}
use darm_guard.Json
use darm_guard.Json.{Json, Items, Fields, obj, str, arr, nil, cons}

-- `[key, value]`
abbrev pub Args : Type 0
Args = List (String × String)

abbrev pub arg_keys : Args → List String
arg_keys = map (λ kv. kv.0)

-- One argument: a list of exactly two strings.
unfoldable pub parse_arg : Json → Option (String × String)
parse_arg (arr (cons (str k) (cons (str v) nil))) = some (k, v)
parse_arg _ = none

add_arg : Option (String × String) → Option Args → Option Args
add_arg (some kv) (some out) = some (kv ∷ out)
add_arg _ _ = none

unfoldable pub parse_args : Items → Option Args
unfolding parse_arg add_arg
parse_args nil = some []
parse_args (cons kv rest) = add_arg (parse_arg kv) (parse_args rest)

-- `set(obj) == {"tool", "args"}`
unfoldable pub has_exact_keys : Fields → Bool
unfolding Json.keys
has_exact_keys fs =
    all (λ k. k == "tool" || k == "args") (Json.keys fs)
    && elem "tool" (Json.keys fs)
    && elem "args" (Json.keys fs)

-- duplicate keys: what is decided and what is executed could diverge
unfoldable pub reject_duplicates : String → Option Args → Option (String × Args)
reject_duplicates tool none = none
reject_duplicates tool (some out) = if distinct (arg_keys out) then some (tool, out) else none

unfoldable pub parse_members : Option Json → Option Json → Option (String × Args)
unfolding parse_args reject_duplicates
parse_members (some (str tool)) (some (arr args)) = reject_duplicates tool (parse_args args)
parse_members _ _ = none

-- `parse_proposal`
unfoldable pub parse_proposal : Json → Option (String × Args)
unfolding parse_members has_exact_keys Json.get
parse_proposal (obj fs) =
    if has_exact_keys fs then parse_members (Json.get "tool" fs) (Json.get "args" fs) else none
parse_proposal _ = none
