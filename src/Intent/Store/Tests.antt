-- ===== src/Intent/Store/Tests.antt =====
-- One intent, available or reserved, with its file.
use darm_guard.Prelude.{
  ◌+◌, true, false, not, ◌≡◌, ◌≢◌, refl, some, [], ◌∷◌, arith, option_beq_iff, option_eq, filter,
  any, list_eq, pair_eq, string_eq,
}
use darm_guard.Prelude.Dict
use darm_guard.Intent.{intent_line}
use darm_guard.Intent.Tests.{broad, one_path}
use darm_guard.Intent.Store.{
  IntentStore, revoke, all_of, reserve, settle, confirmed_success, confirmed_failure,
}
use darm_guard.Intent.{order_intents}
use darm_guard.Prelude.{List, String}
use darm_guard.Intent.Store.{persist}
use darm_guard.Intent.Store.Startup.{
  Ending, judged, outcome_other, outcome_succeeded, settle_reserved,
}
use darm_guard.Intent.Store.Revoke.{hits, revoke_filters}
use darm_guard.Intent.Store.Conserve.{held, uses, IsSettled, held-settle}

abbrev available : IntentStore
available = record {
  intents = broad ∷ one_path ∷ [];
  reserved = [];
  has_path = true;
  frozen = false;
  written = some "write_file\nwrite_file path=/workspace/a\n";
  file = some "write_file\nwrite_file path=/workspace/a\n";
  reserved_file = [];
}

abbrev taken : IntentStore
taken = record {
  intents = broad ∷ [];
  reserved = ("r1", one_path) ∷ [];
  has_path = true;
  frozen = false;
  written = some "write_file\n";
  file = some "write_file\n";
  reserved_file = ("r1", "write_file path=/workspace/a") ∷ [];
}

abbrev edited : IntentStore
edited = record available { file = some "read_file\n" }

abbrev frozen : IntentStore
frozen = record edited { frozen = true }

taken_by_reserve : reserve "r1" one_path available ≡ taken
unfolding reserve intent_line
taken_by_reserve = refl

revoke_filters_example :
    revoke (all_of "read_file" ∷ []) (broad ∷ one_path ∷ [])
    ≡ filter (λ i. not (any (hits i) (all_of "read_file" ∷ []))) (broad ∷ one_path ∷ [])
revoke_filters_example = revoke_filters (all_of "read_file" ∷ []) (broad ∷ one_path ∷ [])

differs : edited.file ≢ available.written
differs e = ground (arith, option_beq_iff edited.file available.written)

held-settle_example :
    (held one_path (settle "r1" confirmed_success taken).1
        + uses confirmed_success one_path one_path
      ≡ held one_path taken)
    × IsSettled one_path "r1" one_path confirmed_success taken
        (settle "r1" confirmed_success taken).1
unfolding Dict.get
held-settle_example = held-settle one_path "r1" one_path confirmed_success taken refl refl

abbrev log : List (String × Ending)
log = ("r1", outcome_other) ∷ ("r2", outcome_succeeded) ∷ ("r1", judged confirmed_failure) ∷ []

given_back_at_startup : (settle_reserved log taken).1.intents ≡ broad ∷ one_path ∷ []
unfolding settle_reserved settle persist order_intents Dict.get Dict.put Dict.remove
given_back_at_startup = refl
