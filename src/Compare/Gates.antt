-- ===== src/Compare/Gates.antt =====
-- darm_guard/verify.py, the built-in gates; darm_guard/coverage.py, the cases and the coverage map.
pub mod Covers
use darm_guard.Prelude.{
  ℕ, Bool, true, false, not, ◌&&◌, String, Option, none, some, List, [], ◌∷◌, ◌++◌, map, filter,
  ◌==◌, string_eq, option_eq, if◌then◌else◌,
}
use darm_guard.Prelude.Text.{starts_with}
use darm_guard.Registry.{Arg, Prov, authoritative, untrusted}
use darm_guard.Kernel.{KernelDecision}
use darm_guard.Guard.{
  Credential, GuardPolicy, FailureKind, FailureWitness, TransferResult, DarmGuard, Mode, govern,
  union, guard_check,
}
use darm_guard.Compare.{Verdict}

pub record Rule : Type 0 where
  pub key : String
  pub allowed_values : List String
  pub allowed_prefixes : List String
  pub payload : Bool

pub record ToolRules : Type 0 where
  pub tool : String
  pub rules : List Rule

-- a request of the kernel, as the scenarios have it
pub record Scenario : Type 0 where
  pub policy : List ToolRules
  pub credential_tools : List String
  pub expired : Bool
  pub tool : String
  pub args : List Arg

-- `allow_all`
abbrev pub allow_all : Scenario → Verdict
allow_all req = record { admitted = true; reason = none; supported = true }

-- the name of a kind of failure, in small letters
abbrev pub kind_name : FailureKind → String
kind_name FailureKind.observation = "observation"
kind_name FailureKind.domain_completeness = "domain_completeness"
kind_name FailureKind.authority = "authority"
kind_name FailureKind.temporal_freshness = "temporal_freshness"
kind_name FailureKind.semantic_boundary = "semantic_boundary"

abbrev first_kind : List FailureWitness → Option String
first_kind [] = none
first_kind (f ∷ rest) = some (kind_name f.kind)

abbrev tool_of : ToolRules → String
tool_of t = t.tool

abbrev pub tools_of : List ToolRules → List String
tools_of ts = map tool_of ts

-- the guard that `darmguard_v01` makes of a scenario; `y2000` is `datetime(2000, 1, 1)`
unfoldable pub guard_of : ℕ → Scenario → DarmGuard
unfolding union
guard_of y2000 req = record {
  mode = govern;
  session = record {
    credential = record {
      tools = union [] req.credential_tools;
      actor = "";
      boundary = "default";
      issued_at = if req.expired then some y2000 else none;
      ttl = if req.expired then some 1000000 else none;
    };
    policy = record { authorized_tools = union [] (tools_of req.policy); boundary = "default" };
    cumulative_scope = [];
    log = [];
    on_drift = none;
    on_violation = none;
  };
}

-- `darmguard_v01`
unfoldable pub darmguard_v01 : ℕ → ℕ → Scenario → Verdict
unfolding guard_of guard_check
darmguard_v01 y2000 now req =
    let r = (guard_check (req.tool ∷ []) now (guard_of y2000 req)).0 in
    record { admitted = r.admitted; reason = first_kind r.failures; supported = true }

-- `_base`
abbrev pub base : Scenario
base = record {
  policy =
      (record {
        tool = "send";
        rules =
            (record {
              key = "to";
              allowed_values = "alice" ∷ [];
              allowed_prefixes = [];
              payload = false;
            })
            ∷ (record {
              key = "body";
              allowed_values = [];
              allowed_prefixes = "" ∷ [];
              payload = true;
            })
            ∷ [];
      })
      ∷ [];
  credential_tools = "send" ∷ [];
  expired = false;
  tool = "send";
  args =
      (record { key = "to"; value = "alice"; prov = authoritative })
      ∷ (record { key = "body"; value = "hi"; prov = authoritative })
      ∷ [];
}

-- `_arg(r, k).update(...)`: the first argument with the key
unfoldable pub update_arg : (Arg → Arg) → String → List Arg → List Arg
update_arg f k [] = []
update_arg f k (a ∷ rest) =
    let others = update_arg f k rest in if a.key == k then f a ∷ rest else a ∷ others

pub record Case : Type 0 where
  pub name : String
  pub request : Scenario
  pub expected : String

abbrev edited : String → (Scenario → Scenario) → String → Case
edited name f expected = record { name = name; request = f base; expected = expected }

-- `cases`
unfoldable pub cases : List Case
unfolding update_arg
cases =
    edited "control (every check passes)" (λ r. r) "admit"
    ∷ edited "authority" (λ r. record r { credential_tools = [] }) "authority"
    ∷ edited "temporal" (λ r. record r { expired = true }) "temporal"
    ∷ edited "observation"
        (λ r. record r {
          tool = "exfiltrate";
          credential_tools = r.credential_tools ++ "exfiltrate" ∷ [];
        })
        "observation"
    ∷ edited "semantic: unruled argument"
        (λ r. record r {
          args = r.args ++ (record { key = "cc"; value = "alice"; prov = authoritative }) ∷ [];
        })
        "semantic"
    ∷ edited "semantic: value outside its rule"
        (λ r. record r { args = update_arg (λ a. record a { value = "mallory" }) "to" r.args })
        "semantic"
    ∷ edited "provenance"
        (λ r. record r { args = update_arg (λ a. record a { prov = untrusted }) "to" r.args })
        "provenance"
    ∷ edited "payload role (untrusted payload)"
        (λ r. record r { args = update_arg (λ a. record a { prov = untrusted }) "body" r.args })
        "admit"
    ∷ []

-- what the map says of a gate in a case
pub data Coverage : Type 0 where
  not_expressible admits inconclusive argument_aware per_call covers misses : Coverage

pub record Row : Type 0 where
  pub name : String
  pub expected : String
  pub is_kernel_ok : Bool
  pub gate : Coverage

-- the kernel's self-check of a case
unfoldable pub self_check : Case → KernelDecision → Bool
self_check c d =
    if c.expected == "admit" then d.admitted else not d.admitted && d.failure == some c.expected

unfoldable pub coverage_of : Case → Verdict → Coverage
unfolding starts_with
coverage_of c v =
    if not v.supported
    then not_expressible
    else if starts_with c.name "control"
    then (if v.admitted then admits else inconclusive)
    else if starts_with c.name "payload"
    then (if v.admitted then argument_aware else per_call)
    else if v.admitted
    then misses
    else covers

abbrev pub row : (Scenario → Verdict) → (Scenario → KernelDecision) → Case → Row
row gate kernel c = record {
  name = c.name;
  expected = c.expected;
  is_kernel_ok = self_check c (kernel c.request);
  gate = coverage_of c (gate c.request);
}

-- `coverage`
unfoldable pub coverage : (Scenario → Verdict) → (Scenario → KernelDecision) → List Row
unfolding cases self_check coverage_of
coverage gate kernel = map (row gate kernel) cases

-- `kernel_adapter`
abbrev pub kernel_adapter : (Scenario → KernelDecision) → Scenario → Verdict
kernel_adapter kernel req = record {
  admitted = (kernel req).admitted;
  reason = if (kernel req).admitted then none else (kernel req).failure;
  supported = true;
}
