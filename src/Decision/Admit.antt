-- ===== src/Decision/Admit.antt =====
-- What an admitted decision rests on.
use darm_guard.Prelude.{
  Bool, true, false, ◌&&◌, String, ◌≡◌, refl, sym, ◌∙◌, ap, ◌⊎◌, inl, inr, Option, none, some, List,
  [], ◌∷◌, All, elem, filter, elem-filter, ◌==◌, ◌!=◌, string_eq, pair_eq, list_eq, ==-refl, arith,
  Bool-cases, Option-cases,
}
use darm_guard.Json.{Json}
use darm_guard.Path.{path_in_normal_form}
use darm_guard.Proposal.{Args, arg_keys, parse_proposal}
use darm_guard.Registry.{Invocation, canonicalize, is_path_key, is_url_key}
use darm_guard.Kernel.{Request, Exchange, Client, KernelDecision, client_decide}
use darm_guard.Intent.{Intent, Observed, intent_fits, premise_problem}
use darm_guard.Intent.Store.{IntentStore, refresh}
use darm_guard.Decision.{
  Config, admit, Decided, is_invocation, form_problem, first_met, request_of, conclude, ask_kernel,
  with_intent, match_intent, gate, turn_down, decide_parsed, decide,
}

-- An available intent covers the action: the intents were not edited, the intent is one of those
-- that are not revoked, it fits, and its premises hold.
pub record Covers (sha256 : String → String) (observe : String → Observed)
    (revocations : Option (List String)) (tool : String) (args : Args) (st : IntentStore)
    (r : Decided) : Type 0 where
  pub intent : Intent
  pub unedited : (refresh revocations st).0 ≡ false
  pub kept : r.intents ≡ some (refresh revocations st).1
  pub matched : r.matched ≡ some intent
  pub available : elem intent (refresh revocations st).1.intents ≡ true
  pub fits : intent_fits sha256 intent tool args ≡ true
  pub met : premise_problem observe intent ≡ none

module _ (normal_url : String → Bool) (sha256 : String → String)
    (sorted : List String → List String) (observe : String → Observed)
    (exchange : Request → String → Exchange) where
  pub record Grounds (cfg : Config) (nonce : String) (revocations : Option (List String)) (j : Json)
      (intents : Option IntentStore) (client : Client) (r : Decided) : Type 0 where
    pub tool : String
    pub args : Args
    pub parsed : parse_proposal j ≡ some (tool, args)
    pub paths : All (λ a. is_path_key a.0 ≡ true → path_in_normal_form a.1 ≡ true) args
    pub urls : All (λ a. is_url_key a.0 ≡ true → normal_url a.1 ≡ true) args
    pub canonical : r.invocation ≡ some (canonicalize cfg.registry tool args)
    pub kernel_admitted :
        (client_decide exchange nonce
          (request_of normal_url sha256 sorted observe exchange cfg tool args)
          client).0.admitted
        ≡ true
    pub kernel_agrees :
        is_invocation
          (client_decide exchange nonce
            (request_of normal_url sha256 sorted observe exchange cfg tool args)
            client).0.invocation
          (canonicalize cfg.registry tool args)
        ≡ true
    pub covered :
        (intents ≡ none)
        ⊎ ((st : IntentStore) × (intents ≡ some st)
            × Covers sha256 observe revocations tool args st r)

  form_problem-none :
      (args : Args)
      → form_problem normal_url sha256 sorted observe exchange args ≡ none
      → All (λ a. is_path_key a.0 ≡ true → path_in_normal_form a.1 ≡ true) args
        × All (λ a. is_url_key a.0 ≡ true → normal_url a.1 ≡ true) args
  unfolding form_problem
  form_problem-none [] h = (tt, tt)
  form_problem-none ((k, v) ∷ rest) h =
      let (ps, us) = form_problem-none rest (ground arith) in
      ((λ p. ground arith, ps), (λ u. ground arith, us))

  first_met-some :
      (is : List Intent) (i : Intent)
      → first_met normal_url sha256 sorted observe exchange is ≡ some i
      → (elem i is ≡ true) × (premise_problem observe i ≡ none)
  unfolding first_met
  first_met-some [] i h = cc
  first_met-some (x ∷ xs) i h = elim (Option-cases (premise_problem observe x)) [
    | inl e ↦
        let same : x ≡ i = ground (arith, e, h) in
        (ground (arith, ap (λ y. y == i) same, ==-refl i), rw same at e)
    | inr (why, e) ↦
        let (m, p) = first_met-some xs i (ground (arith, e, h)) in (ground (arith, m), p)
  ]

  conclude-admit :
      (inv : Invocation) (d : KernelDecision)
      → conclude normal_url sha256 sorted observe exchange inv d ≡ admit
      → (d.admitted ≡ true) × (is_invocation d.invocation inv ≡ true)
  unfolding conclude
  conclude-admit inv d h = elim (Bool-cases d.admitted) [
    | inl a ↦ elim (Bool-cases (is_invocation d.invocation inv)) [
      | inl b ↦ (a, b)
      | inr b ↦ ground (arith, a, b)
    ]
    | inr a ↦ ground (arith, a)
  ]

  module _ (cfg : Config) (nonce : String) (revocations : Option (List String))
      (client : Client) where
    abbrev asked : String → Args → Option Intent → Option IntentStore → Decided
    asked tool args = λ matched intents.
        ask_kernel normal_url sha256 sorted observe exchange cfg nonce tool args matched intents
          client

    -- an admitted decision asked the kernel, with an intent that covers it if intents are on
    gate-admit :
        (tool : String) (args : Args) (intents : Option IntentStore)
        → (gate normal_url sha256 sorted observe exchange cfg nonce revocations tool args intents
            client).reply
          ≡ admit
        → let r =
            gate normal_url sha256 sorted observe exchange cfg nonce revocations tool args intents
              client in
          ((m : Option Intent) × ((s : Option IntentStore) × (r ≡ asked tool args m s)))
          × ((intents ≡ none)
              ⊎ ((st : IntentStore) × (intents ≡ some st)
                  × Covers sha256 observe revocations tool args st r))
    unfolding gate match_intent with_intent ask_kernel
    gate-admit tool args none h = ((none, (none, refl)), inl refl)
    gate-admit tool args (some st) h = go (refresh revocations st) refl h
      where
        found :
            (b : IntentStore)
            → refresh revocations st ≡ (false, b)
            → (o : Option Intent)
            → first_met normal_url sha256 sorted observe exchange
                (filter (λ i. intent_fits sha256 i tool args) b.intents)
              ≡ o
            → let r =
                with_intent normal_url sha256 sorted observe exchange cfg nonce tool args
                  (filter (λ i. intent_fits sha256 i tool args) b.intents)
                  o
                  b
                  client in
              r.reply ≡ admit
              → ((m : Option Intent) × ((s : Option IntentStore) × (r ≡ asked tool args m s)))
                × ((some st ≡ none)
                    ⊎ ((st' : IntentStore) × (some st ≡ some st')
                        × Covers sha256 observe revocations tool args st' r))
        found b e none f k = cc
        found b e (some i) f k =
            let (m, p) =
              first_met-some (filter (λ x. intent_fits sha256 x tool args) b.intents) i f in
            let both = elem-filter (λ x. intent_fits sha256 x tool args) i b.intents in
            (
              (some i, (some b, refl)),
              inr (
                st,
                refl,
                record {
                  intent = i;
                  unedited = ap (λ x. x.0) e;
                  kept = ap (λ x. some x.1) (sym e);
                  matched = refl;
                  available = ap (λ x. elem i x.1.intents) e ∙ ground (arith, both, m);
                  fits = ground (arith, both, m);
                  met = p;
                },
              ),
            )

        go :
            (x : Bool × IntentStore)
            → refresh revocations st ≡ x
            → let r =
                match_intent normal_url sha256 sorted observe exchange cfg nonce tool args x
                  client in
              r.reply ≡ admit
              → ((m : Option Intent) × ((s : Option IntentStore) × (r ≡ asked tool args m s)))
                × ((some st ≡ none)
                    ⊎ ((st' : IntentStore) × (some st ≡ some st')
                        × Covers sha256 observe revocations tool args st' r))
        go (true, b) e k = cc
        go (false, b) e k =
            found b e
              (first_met normal_url sha256 sorted observe exchange
                (filter (λ i. intent_fits sha256 i tool args) b.intents))
              refl k

    -- A decision that admits: the message is a proposal whose paths and URLs are in normal form,
    -- the kernel admitted a request with the broker's registry and the proposal's own tool and
    -- arguments, the invocation to execute is the broker's canonicalization and the kernel's, and
    -- where intents are on, an available intent covers the action.
    pub decide-admit :
        (j : Json) (intents : Option IntentStore)
        → (decide normal_url sha256 sorted observe exchange cfg nonce revocations j intents
            client).reply
          ≡ admit
        → Grounds cfg nonce revocations j intents client (
            decide normal_url sha256 sorted observe exchange cfg nonce revocations j intents client)
    unfolding decide decide_parsed turn_down ask_kernel
    decide-admit j intents h = elim (Option-cases (parse_proposal j)) [
      | inl e ↦ let h' = rw (e, decide) at h in cc
      | inr ((tool, args), e) ↦
          elim (Option-cases (form_problem normal_url sha256 sorted observe exchange args)) [
            | inr (why, f) ↦ let h' = rw (e, decide, f, decide_parsed) at h in cc
            | inl f ↦ elim (Bool-cases (tool == "http_get" && arg_keys args != "url" ∷ [])) [
              | inl u ↦ let h' = rw (e, decide, f, decide_parsed, u) at h in cc
              | inr u ↦
                  let h' = rw (e, decide, f, decide_parsed, u) at h in
                  let ((m, (s, asks)), covers) = gate-admit tool args intents h' in
                  let (ps, us) = form_problem-none args f in
                  let (ruled, same) =
                    conclude-admit (canonicalize cfg.registry tool args)
                      (client_decide exchange nonce
                        (request_of normal_url sha256 sorted observe exchange cfg tool args)
                        client).0
                      (rw asks at h') in
                  rw (e, decide, f, decide_parsed, u)
                    (record {
                      tool = tool;
                      args = args;
                      parsed = e;
                      paths = ps;
                      urls = us;
                      canonical = rw asks refl;
                      kernel_admitted = ruled;
                      kernel_agrees = same;
                      covered = covers;
                    })
            ]
          ]
    ]
