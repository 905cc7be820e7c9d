-- ===== src/Intent/Tests.antt =====
-- Intents of the source's tests: a broad one, one for a path, one for a path and a content.
use darm_guard.Prelude.{false, String, ◌≡◌, refl, [], ◌∷◌, All}
use darm_guard.Prelude.Result.{ok}
use darm_guard.Prelude.Text.{starts_with}
use darm_guard.Proposal.{Args}
use darm_guard.Intent.{Intent, intent_fits, order_intents, parse_intent}
use darm_guard.Intent.Fits.{Meets, intent_fits-Meets}

abbrev pub broad : Intent
broad = ("write_file", [])

abbrev pub one_path : Intent
one_path = ("write_file", ("path", "/workspace/a") ∷ [])

abbrev args : Args
args = ("path", "/workspace/a") ∷ ("content", "hi") ∷ []

abbrev digest : String → String
digest x = x

intent_fits-Meets_example :
    (one_path.0 ≡ "write_file")
    × All (λ c. starts_with c.0 "if_" ≡ false → Meets digest args c) one_path.1
unfolding intent_fits
intent_fits-Meets_example = intent_fits-Meets digest one_path "write_file" args refl

reordered : order_intents (one_path ∷ broad ∷ []) ≡ broad ∷ one_path ∷ []
unfolding order_intents
reordered = refl

parsed : parse_intent "write_file path=/workspace/a" ≡ ok one_path
unfolding parse_intent
parsed = refl
