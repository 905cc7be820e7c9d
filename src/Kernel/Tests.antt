-- ===== src/Kernel/Tests.antt =====
-- A kernel that admits, and one that answers another request.
use mathlib.Core.Logic.{◌↔◌}
use darm_guard.Prelude.{
  true, false, String, ◌≡◌, ◌≢◌, refl, none, some, [], ◌∷◌, arith, eq_iff, option_beq_iff,
  option_eq, string_eq,
}
use darm_guard.Kernel.{Request, Members, not_object, object, Exchange, line, Client, client_decide}
use darm_guard.Kernel.Answers.{client_decide-admitted}

abbrev request : Request
request = record {
  policy = record { tools = [] };
  credential_tools = "read_file" ∷ [];
  expired = false;
  values = [];
  prefixes = [];
  tool = "read_file";
  args = [];
}

abbrev members : String → Members
members nonce = record {
  nonce = some nonce;
  decision = some "admit";
  failure = none;
  error = none;
  invocation = not_object;
}

abbrev honest : Request → String → Exchange
honest r nonce = line (object (members nonce))

abbrev late : Request → String → Exchange
late r nonce = line (object (members "n0"))

abbrev client : Client
client = record { path = "/opt/darmkernel"; running = true }

client_decide-admitted_example : ((client_decide honest "n1" request client).0.admitted ≡ true) ↔ (
    (client.path ≢ "")
    × ((m : Members) × (honest request "n1" ≡ line (object m))
        × (m.nonce ≡ some "n1")
        × (m.decision ≡ some "admit")))
client_decide-admitted_example = client_decide-admitted honest "n1" request client

has_path : client.path ≢ ""
has_path e = ground (arith, eq_iff client.path "")

other_nonce : (members "n0").nonce ≢ some "n1"
other_nonce e = ground (arith, option_beq_iff (members "n0").nonce (some "n1"))

admits : (client_decide honest "n1" request client).0.admitted ≡ true
unfolding client_decide
admits = refl
