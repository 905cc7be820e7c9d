-- ===== src/Decision/Tests.antt =====
-- A read of a registered path, admitted by a kernel that canonicalizes as the broker does, with and
-- without an intent.
use darm_guard.Prelude.{
  Bool, true, false, String, ◌≡◌, ◌≢◌, arith, option_eq, string_eq, option_beq_iff, refl, none,
  some, List, [], ◌∷◌,
}
use darm_guard.Json.{Json}
use darm_guard.Proposal.Parse.{render}
use darm_guard.Registry.{Registry, canonicalize}
use darm_guard.Kernel.{Request, Members, invoked, object, Exchange, line, Client}
use darm_guard.Intent.{Observed, absent}
use darm_guard.Intent.Store.{IntentStore}
use darm_guard.Decision.{Config, admit, decide}
use darm_guard.Decision.Edited.{IsTurnedDown, decide-edited}
use darm_guard.Decision.Admit.{Grounds, decide-admit}

abbrev registry : Registry
registry = record { registry = "/workspace/a" ∷ []; patterns = []; tool_registry = [] }

abbrev pub config : Config
config = record {
  policy = record { tools = [] };
  registry = registry;
  credential_tools = "read_file" ∷ [];
  expired = false;
}

abbrev members : Request → String → Members
members r nonce = record {
  nonce = some nonce;
  decision = some "admit";
  failure = none;
  error = none;
  invocation = invoked (canonicalize registry r.tool r.args);
}

abbrev pub kernel : Request → String → Exchange
kernel r nonce = line (object (members r nonce))

abbrev pub client : Client
client = record { path = "/opt/darmkernel"; running = true }

abbrev pub message : Json
message = render "read_file" (("path", "/workspace/a") ∷ [])

abbrev pub normal : String → Bool
normal u = true

abbrev digest : String → String
digest x = x

abbrev pub sorted : List String → List String
sorted xs = xs

abbrev pub observe : String → Observed
observe path = absent

abbrev pub store : IntentStore
store = record {
  intents = ("read_file", ("path", "/workspace/a") ∷ []) ∷ [];
  reserved = [];
  has_path = false;
  frozen = false;
  written = none;
  file = none;
  reserved_file = [];
}

decide-admit_example :
    Grounds normal digest sorted observe kernel config "n1" none message
      (some store)
      client
      (decide normal digest sorted observe kernel config "n1" none message (some store) client)
unfolding decide render
decide-admit_example =
    decide-admit normal digest sorted observe kernel config "n1" none client message (some store)
      refl

admitted :
    (decide normal digest sorted observe kernel config "n1" none message (some store) client).reply
    ≡ admit
unfolding decide render
admitted = refl

-- the store after someone else edited its file
abbrev edited : IntentStore
edited = record store { has_path = true; written = some "read_file\n"; file = some "" }

edited-ne-written : edited.file ≢ some "read_file\n"
edited-ne-written e = ground (arith, option_beq_iff edited.file (some "read_file\n"))

decide-edited_example :
    IsTurnedDown edited client
      (decide normal digest sorted observe kernel config "n1" none message (some edited) client)
decide-edited_example =
    decide-edited normal digest sorted observe kernel config "n1" none edited client message
      "read_file\n" refl refl edited-ne-written
