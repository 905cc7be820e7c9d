-- ===== src/Decision/Edited.antt =====
-- What the broker decides while its intents file was edited by someone else.
use darm_guard.Prelude.{
  Bool, true, false, ◌&&◌, String, ◌≡◌, ◌≢◌, refl, inl, inr, Option, none, some, List, [], ◌∷◌,
  ◌==◌, ◌!=◌, string_eq, list_eq, Bool-cases, Option-cases,
}
use darm_guard.Json.{Json}
use darm_guard.Proposal.{Args, arg_keys, parse_proposal}
use darm_guard.Kernel.{Request, Exchange, Client}
use darm_guard.Intent.{Observed}
use darm_guard.Intent.Store.{IntentStore, refresh}
use darm_guard.Intent.Store.Revoke.{refresh_edited}
use darm_guard.Decision.{
  Config, reject, Reason, Decided, form_problem, match_intent, gate, turn_down, decide_parsed,
  decide,
}

-- The message is turned down, the kernel is not asked, no intent matches, and the intents and their
-- file are as they were.
abbrev pub IsTurnedDown : IntentStore → Client → Decided → Type 0
IsTurnedDown st client d =
    ((failure : Option String) × (why : Option Reason) × (d.reply ≡ reject failure why))
    × (d.matched ≡ none)
    × (d.client ≡ client)
    × ((st' : IntentStore) × (d.intents ≡ some st')
        × (st'.intents ≡ st.intents)
        × (st'.reserved ≡ st.reserved)
        × (st'.file ≡ st.file))

module _ (normal_url : String → Bool) (sha256 : String → String)
    (sorted : List String → List String) (observe : String → Observed)
    (exchange : Request → String → Exchange) (cfg : Config) (nonce : String)
    (revocations : Option (List String)) (st : IntentStore) (client : Client) where
  turn_down-IsTurnedDown :
      (tool : Option String) (why : String)
      → IsTurnedDown st client
          (turn_down normal_url sha256 sorted observe exchange tool why (some st) client)
  unfolding turn_down
  turn_down-IsTurnedDown tool why = ((none, _, refl), refl, refl, (st, refl, refl, refl, refl))

  match_intent-IsTurnedDown :
      (tool : String) (args : Args) (r : Bool × IntentStore)
      → r.0 ≡ true
      → r.1.intents ≡ st.intents
      → r.1.reserved ≡ st.reserved
      → r.1.file ≡ st.file
      → IsTurnedDown st client
          (match_intent normal_url sha256 sorted observe exchange cfg nonce tool args r client)
  unfolding match_intent
  match_intent-IsTurnedDown tool args (true, st') e i d f =
      ((_, _, refl), refl, refl, (st', refl, i, d, f))
  match_intent-IsTurnedDown tool args (false, st') e i d f = cc

  -- Where intents are kept in a file, and while that file is not what the broker last wrote, every
  -- message is turned down, whatever it proposes: the kernel is not asked, no intent is matched, and
  -- neither the intents, the reservations nor the file change.
  pub decide-edited :
      (j : Json) (w : String)
      → st.has_path ≡ true
      → st.written ≡ some w
      → st.file ≢ some w
      → IsTurnedDown st client (
          decide normal_url sha256 sorted observe exchange cfg nonce revocations j (some st) client)
  unfolding decide decide_parsed gate
  decide-edited j w p q r =
      let (refuses, frozen, same, reserved, file) = refresh_edited revocations st w p q r in
      elim (Option-cases (parse_proposal j)) [
        | inl e ↦ rw (e, decide) (turn_down-IsTurnedDown none _)
        | inr ((tool, args), e) ↦
            rw (e, decide)
              (elim (Option-cases (form_problem normal_url sha256 sorted observe exchange args)) [
                | inr (why, f) ↦ rw (f, decide_parsed) (turn_down-IsTurnedDown (some tool) why)
                | inl f ↦
                    rw (f, decide_parsed)
                      (elim (Bool-cases (tool == "http_get" && arg_keys args != "url" ∷ [])) [
                        | inl h ↦ rw h (turn_down-IsTurnedDown (some tool) _)
                        | inr h ↦ rw h (
                            match_intent-IsTurnedDown tool args (refresh revocations st) refuses
                              same reserved file)
                      ])
              ])
      ]
