-- ===== src/Decision.antt =====
-- darm_guard/broker.py, `Broker.decide`: from a message of the agent to a decision, without effect.
pub mod Admit
pub mod Edited
pub mod Tests
use darm_guard.Prelude.{
  Bool, true, false, not, ◌&&◌, ◌||◌, String, Option, none, some, List, [], ◌∷◌, map, all, filter,
  ◌==◌, ◌!=◌, string_eq, list_eq, pair_eq, option_eq, if◌then◌else◌,
}
use darm_guard.Json.{Json}
use darm_guard.Path.{path_in_normal_form}
use darm_guard.Proposal.{Args, arg_keys, parse_proposal}
use darm_guard.Registry.{
  Policy, Registry, Arg, Invocation, Prov, authoritative, derived, untrusted, canonicalize,
  registry_for, is_path_key, is_url_key,
}
use darm_guard.Kernel.{
  Request, Invoked, invoked, not_object, other_object, Exchange, Client, KernelDecision,
  client_decide,
}
use darm_guard.Intent.{Intent, Observed, Premise, intent_fits, premise_problem}
use darm_guard.Intent.Store.{IntentStore, refresh}

-- The part of `BrokerConfig` that a decision reads. `expired` is `cfg.expired(now)`.
pub record Config : Type 0 where
  pub policy : Policy
  pub registry : Registry
  pub credential_tools : List String
  pub expired : Bool

-- the `error` of a refusal; of an unmet premise, the premise
pub data Reason : Type 0 where
  text : String → Reason
  not_met : Premise → Reason

pub data Reply : Type 0 where
  admit : Reply
  reject : Option String → Option Reason → Reply

-- What `decide` returns, with what it leaves in the broker: the matched intent, the intents and the
-- kernel client.
pub record Decided : Type 0 where
  pub invocation : Option Invocation
  pub tool : Option String
  pub reply : Reply
  pub matched : Option Intent
  pub intents : Option IntentStore
  pub client : Client

prov_beq : Prov → Prov → Bool
prov_beq authoritative authoritative = true
prov_beq derived derived = true
prov_beq untrusted untrusted = true
prov_beq _ _ = false

unfoldable pub args_beq : List Arg → List Arg → Bool
unfolding prov_beq
args_beq [] [] = true
args_beq (a ∷ xs) (b ∷ ys) =
    a.key == b.key && a.value == b.value && prov_beq a.prov b.prov && args_beq xs ys
args_beq _ _ = false

-- `d.invocation == inv`
unfoldable pub is_invocation : Option Invoked → Invocation → Bool
unfolding args_beq
is_invocation (some (invoked i)) inv = i.tool == inv.tool && args_beq i.args inv.args
is_invocation _ inv = false

-- `normal_url` is http_get's; `sorted` is Python's; `observe` is `_observe` of the workspace.
module _ (normal_url : String → Bool) (sha256 : String → String)
    (sorted : List String → List String) (observe : String → Observed)
    (exchange : Request → String → Exchange) where
  -- the first argument that is not in normal form, as the error
  unfoldable pub form_problem : Args → Option String
  unfolding path_in_normal_form
  form_problem [] = none
  form_problem ((k, v) ∷ rest) =
      if is_path_key k && not (path_in_normal_form v)
      then some "path not in normal form"
      else if is_url_key k && not (normal_url v)
      then some "url not in normal form"
      else form_problem rest

  -- the first of the fitting intents whose premises hold
  unfoldable pub first_met : List Intent → Option Intent
  unfolding premise_problem
  first_met [] = none
  first_met (i ∷ rest) = elim (premise_problem observe i) [
    | none ↦ some i
    | some why ↦ first_met rest
  ]

  -- `unmet[0]`, if there is one
  unfoldable pub unmet : List Intent → Option Reason
  unfolding premise_problem
  unmet [] = none
  unmet (i ∷ rest) = elim (premise_problem observe i) [
    | none ↦ none
    | some why ↦ some (not_met why)
  ]

  unfoldable pub request_of : Config → String → Args → Request
  unfolding registry_for
  request_of cfg tool args = record {
    policy = cfg.policy;
    credential_tools = cfg.credential_tools;
    expired = cfg.expired;
    values = sorted (registry_for cfg.registry tool).0;
    prefixes = (registry_for cfg.registry tool).1;
    tool = tool;
    args = args;
  }

  text_of : Option String → Option Reason
  text_of none = none
  text_of (some why) = some (text why)

  -- what the kernel's decision makes of it
  unfoldable pub conclude : Invocation → KernelDecision → Reply
  unfolding is_invocation text_of
  conclude inv d =
      if not d.admitted
      then reject d.failure (text_of d.error)
      else if not (is_invocation d.invocation inv)
      then reject (some "semantic")
          (some (text "the kernel's canonical invocation differs from the broker's"))
      else admit

  unfoldable pub ask_kernel :
      Config → String → String → Args → Option Intent → Option IntentStore → Client → Decided
  unfolding conclude request_of client_decide canonicalize
  ask_kernel cfg nonce tool args matched intents client =
      let d = client_decide exchange nonce (request_of cfg tool args) client in
      record {
        invocation = some (canonicalize cfg.registry tool args);
        tool = some tool;
        reply = conclude (canonicalize cfg.registry tool args) d.0;
        matched = matched;
        intents = intents;
        client = d.1;
      }

  unfoldable pub with_intent :
      Config → String → String → Args → List Intent → Option Intent → IntentStore → Client → Decided
  unfolding ask_kernel unmet canonicalize
  with_intent cfg nonce tool args fitting (some i) st client =
      ask_kernel cfg nonce tool args (some i) (some st) client
  with_intent cfg nonce tool args fitting none st client = record {
    invocation = some (canonicalize cfg.registry tool args);
    tool = some tool;
    reply = reject (some "intent") (unmet fitting);
    matched = none;
    intents = some st;
    client = client;
  }

  unfoldable pub match_intent :
      Config → String → String → Args → Bool × IntentStore → Client → Decided
  unfolding with_intent first_met intent_fits canonicalize
  match_intent cfg nonce tool args (true, st) client = record {
    invocation = some (canonicalize cfg.registry tool args);
    tool = some tool;
    reply = reject (some "intent") (
        some (
          text
            "the intents file changed outside the broker: refusing intent-gated actions; revoke through the revocations file, or restart"));
    matched = none;
    intents = some st;
    client = client;
  }
  match_intent cfg nonce tool args (false, st) client =
      let fitting = filter (λ i. intent_fits sha256 i tool args) st.intents in
      with_intent cfg nonce tool args fitting (first_met fitting) st client

  unfoldable pub gate :
      Config → String → Option (List String) → String → Args → Option IntentStore → Client → Decided
  unfolding match_intent refresh ask_kernel
  gate cfg nonce revocations tool args none client = ask_kernel cfg nonce tool args none none client
  gate cfg nonce revocations tool args (some st) client =
      match_intent cfg nonce tool args (refresh revocations st) client

  unfoldable pub turn_down : Option String → String → Option IntentStore → Client → Decided
  turn_down tool why intents client = record {
    invocation = none;
    tool = tool;
    reply = reject none (some (text why));
    matched = none;
    intents = intents;
    client = client;
  }

  unfoldable pub decide_parsed :
      Config → String → Option (List String) → String → Args → Option IntentStore → Client → Decided
  unfolding form_problem gate turn_down
  decide_parsed cfg nonce revocations tool args intents client = elim (form_problem args) [
    | some why ↦ turn_down (some tool) why intents client
    | none ↦
        if tool == "http_get" && arg_keys args != "url" ∷ []
        then turn_down (some tool) "http_get takes exactly one argument, url" intents client
        else gate cfg nonce revocations tool args intents client
  ]

  -- `Broker.decide`
  unfoldable pub decide :
      Config → String → Option (List String) → Json → Option IntentStore → Client → Decided
  unfolding decide_parsed parse_proposal turn_down
  decide cfg nonce revocations j intents client = elim (parse_proposal j) [
    | none ↦ turn_down none "malformed proposal" intents client
    | some (tool, args) ↦ decide_parsed cfg nonce revocations tool args intents client
  ]
