-- ===== src/Handle/Tests.antt =====
-- A read with a key.
use darm_guard.Prelude.{
  Bool, true, false, ◌≢◌, ◌≤◌, ◌≡◌, ◌⊎◌, ◌∷◌, ap, sym, ◌∙◌, if◌then◌else◌, refl, none, some, [],
}
use darm_guard.Json.{str, obj, field, end, arr, cons, nil}
use darm_guard.Effect.Replace.{calm}
use darm_guard.Decision.{decide}
use darm_guard.Decision.Tests.{config, kernel, client, normal, sorted, observe, store}
use darm_guard.Recovery.Tests.{host}
use darm_guard.Execute.Tests.{no_fetch, disk}
use darm_guard.Handle.Parts.{Incoming, Setting}
use darm_guard.Handle.{Broker, Response, escaped, hash_of, take_key, handle}
use darm_guard.Handle.Once.{IsExplained, handle-handle_key}
use darm_guard.Handle.Sequence.{effects_under, NoneEscape, effects_at_most_once}
use darm_guard.Keys.{is_malformed}
use darm_guard.Keys.Once.{known}
use darm_guard.Handle.Order.{IsAdmitted, IsHandled, handle-IsHandled}

abbrev set : Setting
set = record {
  config = config;
  normal_url = normal;
  sorted = sorted;
  exchange = kernel;
  fetch = no_fetch;
  invocation_hash = λ inv. inv.tool;
  can_append = λ log. true;
  manifest = none;
  requires_attestation = false;
}

abbrev request : Incoming
request = record {
  message = obj (
      field "tool" (str "read_file") (
        field "args" (arr (cons (arr (cons (str "path") (cons (str "/workspace/a") nil))) nil))
          (field "idempotency_key" (str "k") end)));
  rid = "r1";
  is_rolled_back = false;
  nonce = "n1";
  revocations = none;
  observed = observe;
  private_name = λ source. ".mv";
  fresh = λ name. ".tmp";
}

abbrev broker : Broker
broker = record { log = []; keys = []; intents = some store; client = client; world = calm disk }

handle-IsHandled_example :
    IsHandled set host
      (IsAdmitted set host request broker)
      "r1"
      broker
      (handle set host request broker)
handle-IsHandled_example = handle-IsHandled set host request broker disk refl

abbrev again : Incoming
again = record request { rid = "r2"; nonce = "n2" }

is_escaped : Response → Bool
is_escaped escaped = true
is_escaped _ = false

not_escaped : (r : Response) → is_escaped r ≡ false → r ≢ escaped
unfolding is_escaped
not_escaped r h e = let same : true ≡ false = sym (ap is_escaped e) ∙ h in cc

none_escape : NoneEscape set host (request ∷ again ∷ []) broker
unfolding handle is_escaped is_malformed
none_escape = (not_escaped _ refl, (not_escaped _ refl, tt))

effects_at_most_once_example :
    effects_under set host "k" (request ∷ again ∷ []) broker
    ≤ (if known "k" broker.keys then 0 else 1)
effects_at_most_once_example =
    effects_at_most_once set host "k" (request ∷ again ∷ []) broker none_escape

handle-handle_key_example :
    ((request.is_rolled_back ≡ true)
      × ((handle set host request broker).0 ≡ Response.clock)
      × ((handle set host request broker).1.keys ≡ broker.keys))
    ⊎ ((request.is_rolled_back ≡ false)
        × IsExplained
            (some "k")
            request
            (some "read_file")
            broker.keys
            (handle set host request broker))
unfolding take_key is_malformed hash_of decide
handle-handle_key_example =
    handle-handle_key set host request broker (some "k") _ refl none_escape.0

once : effects_under set host "k" (request ∷ again ∷ []) broker ≡ 1
unfolding handle is_malformed
once = refl
