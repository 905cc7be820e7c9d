-- ===== src/Registry.antt =====
-- darm_guard/broker.py: the principal's registry, the check of prefixes at load, and the
-- provenance that the broker assigns.
mod Patterns
pub mod Split
pub mod Prefixes
pub mod Tests
use Prim.Native.Nat.{Ordering}
use Prim.Native.Char.{code}
use Prim.Native.String.{compare}
use darm_guard.Prelude.{
  ℕ, Bool, true, false, not, ◌&&◌, ◌||◌, String, Option, none, some, List, [], ◌∷◌, ◌++◌, map, any,
  elem, filter, leb, nat_beq, ◌==◌, string_eq, if◌then◌else◌,
}
use darm_guard.Prelude.Text.{starts_with, ends_with, span, strip, is_space, drop_last}
use darm_guard.Prelude.Result.{Result, ok, err}
use darm_guard.Path.{PrefixKind, path_kind, url_kind, prefix_problem}
use darm_guard.Proposal.{Args}

-- The kernel's JSON policy.
pub record PolicyRule : Type 0 where
  pub key : String
  pub allowed_values : List String
  pub allowed_prefixes : List String

pub record PolicyTool : Type 0 where
  pub tool : String
  pub rules : List PolicyRule

pub record Policy : Type 0 where
  pub tools : List PolicyTool

-- One tool's part of the registry: the tool, its values and its patterns.
pub record Tagged : Type 0 where
  pub tool : String
  pub vouched : List String
  pub patterns : List String

abbrev is_lower : ℕ → Bool
is_lower c = leb b'a' c && leb c b'z'

abbrev is_name : ℕ → Bool
is_name c = is_lower c || (leb b'0' c && leb c b'9') || nat_beq c b'_'

-- `^([a-z][a-z0-9_]*)\s+(\S.*)$`, with the second group stripped
tagged_rest : String → String → Option (String × String)
unfolding span strip
tagged_rest tool String.[] = none
tagged_rest tool (String.◌∷◌ c s) =
    if is_space (code c)
    then (let value = strip s in if value == "" then none else some (tool, value))
    else none

unfoldable pub tagged_line : String → Option (String × String)
unfolding tagged_rest
tagged_line String.[] = none
tagged_line (String.◌∷◌ c s) =
    if is_lower (code c)
    then (let (name, rest) = span is_name s in tagged_rest (String.◌∷◌ c name) rest)
    else none

-- `per_tool.setdefault(tool, []).append(value)`
unfoldable pub add_value :
    String → String → List (String × List String) → List (String × List String)
add_value tool value [] = (tool, value ∷ []) ∷ []
add_value tool value ((t, vs) ∷ rest) =
    if t == tool then (t, vs ++ value ∷ []) ∷ rest else (t, vs) ∷ add_value tool value rest

-- a registry line that names a tool which the policy does not have
pub data RegistryError : Type 0 where
  unknown_tool : String → String → RegistryError

-- the two lists that the loop of `_split_registry` fills
pub record Lines : Type 0 where
  pub untagged : List String
  pub per_tool : List (String × List String)

unfoldable pub split_line : List String → String → Lines → Result RegistryError Lines
unfolding tagged_line add_value
split_line tools line acc = elim (tagged_line line) [
  | none ↦ ok (record acc { untagged = acc.untagged ++ line ∷ [] })
  | some (tool, value) ↦
      if elem tool tools
      then ok (record acc { per_tool = add_value tool value acc.per_tool })
      else err (unknown_tool line tool)
]

unfoldable pub split_lines : List String → List String → Lines → Result RegistryError Lines
unfolding split_line
split_lines tools [] acc = ok acc
split_lines tools (line ∷ rest) acc = elim (split_line tools line acc) [
  | ok acc' ↦ split_lines tools rest acc'
  | err e ↦ err e
]

abbrev pub is_pattern : String → Bool
is_pattern v = ends_with v "*"

unfoldable pub tag : String × List String → Tagged
tag (t, vs) = record {
  tool = t;
  vouched = filter (λ v. not (is_pattern v)) vs;
  patterns = map drop_last (filter is_pattern vs);
}

-- `sorted(per_tool.items())`; the keys are distinct
unfoldable pub insert_tool :
    String × List String → List (String × List String) → List (String × List String)
insert_tool x [] = x ∷ []
insert_tool x (y ∷ rest) = elim (compare y.0 x.0) [
  | Ordering.gt ↦ x ∷ y ∷ rest
  | _ ↦ y ∷ insert_tool x rest
]

unfoldable pub sort_tools : List (String × List String) → List (String × List String)
unfolding insert_tool
sort_tools [] = []
sort_tools (x ∷ rest) = insert_tool x (sort_tools rest)

abbrev pub no_lines : Lines
no_lines = record { untagged = []; per_tool = [] }

-- `_split_registry`
unfoldable pub split_registry :
    List String → Policy → Result RegistryError (List String × List Tagged)
unfolding split_lines sort_tools tag
split_registry lines policy = elim (split_lines (map (λ t. t.tool) policy.tools) lines no_lines) [
  | ok acc ↦ ok (acc.untagged, map tag (sort_tools acc.per_tool))
  | err e ↦ err e
]

-- The part of `BrokerConfig` that the registry fills.
pub record Registry : Type 0 where
  pub registry : List String
  pub patterns : List String
  pub tool_registry : List Tagged

-- the values and the patterns of `BrokerConfig.load`
unfoldable pub load_registry : List String → Policy → Result RegistryError Registry
unfolding split_registry
load_registry lines policy = elim (split_registry lines policy) [
  | ok (untagged, tagged) ↦ ok (record {
    registry = filter (λ l. not (is_pattern l)) untagged;
    patterns = map drop_last (filter is_pattern untagged);
    tool_registry = tagged;
  })
  | err e ↦ err e
]

unfoldable pub tagged_values : String → List Tagged → List String
tagged_values tool [] = []
tagged_values tool (t ∷ rest) =
    let others = tagged_values tool rest in if t.tool == tool then t.vouched ++ others else others

unfoldable pub tagged_patterns : String → List Tagged → List String
tagged_patterns tool [] = []
tagged_patterns tool (t ∷ rest) =
    let others = tagged_patterns tool rest in
    if t.tool == tool then t.patterns ++ others else others

-- `BrokerConfig.registry_for`
unfoldable pub registry_for : Registry → String → List String × List String
unfolding tagged_values tagged_patterns
registry_for r tool = (
  r.registry ++ tagged_values tool r.tool_registry,
  r.patterns ++ tagged_patterns tool r.tool_registry,
)

pub data Prov : Type 0 where
  authoritative derived untrusted : Prov

-- `assign_prov`
unfoldable pub assign_prov : List String → String → List String → Prov
unfolding starts_with
assign_prov registry value patterns =
    if elem value registry
    then authoritative
    else if any (λ p. starts_with value p) patterns
    then derived
    else untrusted

pub record Arg : Type 0 where
  pub key : String
  pub value : String
  pub prov : Prov

pub record Invocation : Type 0 where
  pub tool : String
  pub args : List Arg

-- `canonicalize`
unfoldable pub canonicalize : Registry → String → Args → Invocation
unfolding registry_for assign_prov
canonicalize r tool args = record {
  tool = tool;
  args =
      map
        (λ kv. record {
          key = kv.0;
          value = kv.1;
          prov = assign_prov (registry_for r tool).0 kv.1 (registry_for r tool).1;
        })
        args;
}

-- `PATH_KEYS`, `URL_KEYS`
abbrev pub is_path_key : String → Bool
is_path_key k = k == "path" || k == "destination"

abbrev pub is_url_key : String → Bool
is_url_key k = k == "url"

abbrev key_kind : String → Option PrefixKind
key_kind k = if is_path_key k then some path_kind else if is_url_key k then some url_kind else none

unfoldable pub pattern_kind : String → Option PrefixKind
unfolding starts_with
pattern_kind p =
    if starts_with p "/"
    then some path_kind
    else if starts_with p "https://" || starts_with p "http://"
    then some url_kind
    else none

module _ (normal_url : String → Bool) where
  unfoldable pub problem_of : Option PrefixKind → String → List String
  unfolding prefix_problem
  problem_of none p = []
  problem_of (some kind) p = elim (prefix_problem normal_url p kind) [
    | none ↦ []
    | some why ↦ why ∷ []
  ]

  unfoldable pub problems_of : Option PrefixKind → List String → List String
  unfolding problem_of
  problems_of kind [] = []
  problems_of kind (p ∷ ps) = problem_of kind p ++ problems_of kind ps

  unfoldable pub rule_problems : List PolicyRule → List String
  unfolding problems_of
  rule_problems [] = []
  rule_problems (r ∷ rest) = problems_of (key_kind r.key) r.allowed_prefixes ++ rule_problems rest

  unfoldable pub tool_problems : List PolicyTool → List String
  unfolding rule_problems
  tool_problems [] = []
  tool_problems (t ∷ rest) = rule_problems t.rules ++ tool_problems rest

  unfoldable pub pattern_problems : List String → List String
  unfolding pattern_kind problem_of
  pattern_problems [] = []
  pattern_problems (p ∷ rest) = problem_of (pattern_kind p) p ++ pattern_problems rest

  -- `_check_prefixes`: the problems, none of which lets the configuration load
  unfoldable pub check_prefixes : Policy → List String → Result (List String) (Unit {0})
  unfolding tool_problems pattern_problems
  check_prefixes policy patterns = elim (tool_problems policy.tools ++ pattern_problems patterns) [
    | [] ↦ ok tt
    | p ∷ rest ↦ err (p ∷ rest)
  ]
