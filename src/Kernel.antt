-- ===== src/Kernel.antt =====
-- darm_guard/kernel.py, `KernelClient`: how a reply of the kernel process becomes a decision. The
-- kernel and the pipe to it are the parameter `exchange`.
pub mod Answers
pub mod Tests
use darm_guard.Prelude.{
  Bool, true, false, String, Option, none, some, List, ◌==◌, ◌!=◌, string_eq, option_eq,
  if◌then◌else◌,
}
use darm_guard.Proposal.{Args}
use darm_guard.Registry.{Policy, Invocation}

-- the request that `Broker.decide` sends
pub record Request : Type 0 where
  pub policy : Policy
  pub credential_tools : List String
  pub expired : Bool
  pub values : List String
  pub prefixes : List String
  pub tool : String
  pub args : Args

-- `data.get("invocation")`: not an object, an object of another shape, or an invocation
pub data Invoked : Type 0 where
  not_object other_object : Invoked
  invoked : Invocation → Invoked

-- The JSON value of a line of the kernel. A member that is missing or no text is `none`.
pub record Members : Type 0 where
  pub nonce : Option String
  pub decision : Option String
  pub failure : Option String
  pub error : Option String
  pub invocation : Invoked

pub data Answer : Type 0 where
  no_object : Answer
  object : Members → Answer

-- what comes of writing the request and reading a line
pub data Exchange : Type 0 where
  timeout exited unavailable : Exchange
  line : Answer → Exchange

pub record KernelDecision : Type 0 where
  pub admitted : Bool
  pub failure : Option String
  pub error : Option String
  pub invocation : Option Invoked

pub record Client : Type 0 where
  pub path : String
  pub running : Bool

refused : String → KernelDecision
refused why = record { admitted = false; failure = none; error = some why; invocation = none }

dict_of : Invoked → Option Invoked
dict_of not_object = none
dict_of other_object = some other_object
dict_of (invoked i) = some (invoked i)

unfoldable pub read_members : String → Members → Client → KernelDecision × Client
unfolding refused dict_of
read_members nonce m c =
    if m.nonce != some nonce
    then (
      refused "kernel reply does not answer this request (nonce mismatch)",
      record c { running = false },
    )
    else if m.decision == some "admit"
    then (
      record { admitted = true; failure = none; error = none; invocation = dict_of m.invocation },
      c,
    )
    else (record { admitted = false; failure = m.failure; error = m.error; invocation = none }, c)

unfoldable pub read_exchange : String → Exchange → Client → KernelDecision × Client
unfolding read_members refused
read_exchange nonce timeout c = (refused "kernel timeout", record c { running = false })
read_exchange nonce exited c = (refused "kernel exited", record c { running = false })
read_exchange nonce unavailable c = (refused "kernel unavailable", record c { running = false })
read_exchange nonce (line no_object) c =
    (refused "kernel reply is not a JSON object", record c { running = true })
read_exchange nonce (line (object m)) c = read_members nonce m (record c { running = true })

module _ (exchange : Request → String → Exchange) where
  -- `KernelClient.decide`, with the fresh nonce
  unfoldable pub client_decide : String → Request → Client → KernelDecision × Client
  unfolding read_exchange refused
  client_decide nonce request c =
      if c.path == ""
      then (refused "no kernel: run darm-guard-install-kernel or set DARM_KERNEL_PATH", c)
      else read_exchange nonce (exchange request nonce) c
