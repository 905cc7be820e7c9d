-- ===== src/Intent.antt =====
-- darm_guard/broker.py: the principal's single-use intents, how they are written, ordered and
-- matched, and their premises.
pub mod Order
pub mod Fits
pub mod Store
pub mod Tests
use Prim.Native.String.{◌++◌ as concat, count}
use darm_guard.Prelude.{
  ℕ, Bool, true, false, not, ◌&&◌, ◌||◌, String, Option, none, some, List, [], ◌∷◌, ◌++◌, map, any,
  all, length, distinct, leb, ◌==◌, ◌!=◌, string_eq, nat_eq, option_eq, if◌then◌else◌,
}
use darm_guard.Prelude.Text.{
  starts_with, ends_with, words, partition, rpartition, all_chars, before_suffix, join,
}
use darm_guard.Prelude.Result.{Result, ok, err}
use darm_guard.Path.{path_in_normal_form}
use darm_guard.Proposal.{Args}
use darm_guard.Registry.{is_path_key}

abbrev pub Intent : Type 0
Intent = String × List (String × String)

pub data IntentError : Type 0 where
  empty_intent : IntentError
  malformed not_normal bad_digest unknown_premise bad_premise repeated : String → IntentError

abbrev pub is_hex : ℕ → Bool
is_hex c = leb b'0' c && leb c b'9' || leb b'a' c && leb c b'f'

-- `len(v) == 64 and all(c in "0123456789abcdef" for c in v)`
unfoldable pub is_digest : String → Bool
unfolding all_chars
is_digest v = count v == 64 && all_chars is_hex v

abbrev pub is_premise : String → Bool
is_premise k = k == "if_present" || k == "if_absent" || k == "if_digest"

-- `<normal-form path>@<64 lowercase hex digits>`
unfoldable pub is_digest_premise : String → Bool
unfolding rpartition is_digest path_in_normal_form
is_digest_premise v = elim (rpartition b'@' v) [
  | none ↦ false
  | some (path, digest) ↦ path_in_normal_form path && is_digest digest
]

-- the tests of `_parse_intent` on one constraint, in their order
unfoldable pub check_constraint : String → String → Result IntentError (String × String)
unfolding is_digest is_digest_premise path_in_normal_form ends_with starts_with
check_constraint k v =
    if is_path_key k && not (path_in_normal_form v)
    then err (not_normal v)
    else if ends_with k "_sha256" && not (is_digest v)
    then err (bad_digest v)
    else if starts_with k "if_" && not (is_premise k)
    then err (unknown_premise k)
    else if (k == "if_present" || k == "if_absent") && not (path_in_normal_form v)
    then err (bad_premise v)
    else if k == "if_digest" && not (is_digest_premise v)
    then err (bad_premise v)
    else ok (k, v)

unfoldable pub parse_constraint : String → Result IntentError (String × String)
unfolding check_constraint partition
parse_constraint c =
    let (k, found, v) = partition b'=' c in
    if not found || k == "" || v == "" then err (malformed c) else check_constraint k v

unfoldable pub parse_constraints : List String → Result IntentError (List (String × String))
unfolding parse_constraint
parse_constraints [] = ok []
parse_constraints (c ∷ rest) = elim (parse_constraint c) [
  | err x ↦ err x
  | ok kv ↦ elim (parse_constraints rest) [ err x ↦ err x | ok cons ↦ ok (kv ∷ cons) ]
]

parse_words : String → List String → Result IntentError Intent
unfolding parse_constraints
parse_words line [] = err empty_intent
parse_words line (tool ∷ rest) = elim (parse_constraints rest) [
  | err x ↦ err x
  | ok cons ↦ if distinct (map (λ c. c.0) cons) then ok (tool, cons) else err (repeated line)
]

-- `_parse_intent`
unfoldable pub parse_intent : String → Result IntentError Intent
unfolding parse_words words
parse_intent line = parse_words line (words line)

abbrev pub breadth : Intent → ℕ
breadth i = length i.1

unfoldable pub insert_intent : Intent → List Intent → List Intent
insert_intent x [] = x ∷ []
insert_intent x (y ∷ rest) =
    if leb (breadth x) (breadth y) then x ∷ y ∷ rest else y ∷ insert_intent x rest

-- `_order_intents`: Python's stable sort by the number of constraints
unfoldable pub order_intents : List Intent → List Intent
unfolding insert_intent
order_intents [] = []
order_intents (x ∷ rest) = insert_intent x (order_intents rest)

-- `_intent_line`
unfoldable pub intent_line : Intent → String
unfolding join
intent_line i = join " " (i.0 ∷ map (λ c. concat c.0 (concat "=" c.1)) i.1)

-- what the broker sees of an argument's value for a constraint's name, and the argument's name
abbrev pub is_pinned : String → Bool
is_pinned k = ends_with k "_sha256"

module _ (sha256 : String → String) where
  abbrev pub seen : String → String → String
  seen k value = if is_pinned k then sha256 value else value

  abbrev pub named : String → String
  named k = if is_pinned k then before_suffix k "_sha256" else k

  -- `holds` of `_intent_fits`
  unfoldable pub holds : Args → String × String → Bool
  unfolding starts_with ends_with before_suffix
  holds args (k, v) =
      if starts_with k "if_"
      then true
      else any (λ a. a.0 == named k) args
        && all (λ a. if a.0 == named k then seen k a.1 == v else true) args

  -- `_intent_fits`
  unfoldable pub intent_fits : Intent → String → Args → Bool
  unfolding holds
  intent_fits (t, cons) tool args = t == tool && all (holds args) cons

-- What `_observe` reports of a path.
pub data Observed : Type 0 where
  absent : Observed
  present unavailable : String → Observed

pub data Premise : Type 0 where
  not_present not_absent : String → Premise
  other_digest : String → String → Premise

abbrev is_present : Observed → Bool
is_present (present _) = true
is_present _ = false

abbrev is_absent : Observed → Bool
is_absent absent = true
is_absent _ = false

abbrev has_digest : String → Observed → Bool
has_digest d (present e) = e == d
has_digest d _ = false

-- `v.rpartition("@")`, whose first part is empty where there is no separator
abbrev premise_path : String → String × String
premise_path v = elim (rpartition b'@' v) [ none ↦ ("", v) | some pd ↦ pd ]

module _ (observe : String → Observed) where
  -- one constraint of `_premise_problem`
  unfoldable pub premise_of : String × String → Option Premise
  unfolding rpartition
  premise_of (k, v) =
      if k == "if_present" && not (is_present (observe v))
      then some (not_present v)
      else if k == "if_absent" && not (is_absent (observe v))
      then some (not_absent v)
      else if k == "if_digest" && not (has_digest (premise_path v).1 (observe (premise_path v).0))
      then some (other_digest (premise_path v).0 (premise_path v).1)
      else none

  unfoldable pub first_problem : List (String × String) → Option Premise
  unfolding premise_of
  first_problem [] = none
  first_problem (c ∷ rest) = elim (premise_of c) [ none ↦ first_problem rest | some p ↦ some p ]

  -- `_premise_problem`
  unfoldable pub premise_problem : Intent → Option Premise
  unfolding first_problem
  premise_problem i = first_problem i.1
