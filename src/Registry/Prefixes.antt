-- ===== src/Registry/Prefixes.antt =====
-- What the check of prefixes at load buys: a value that a pattern vouches for lies, by its path
-- components, below the directories that the pattern names.
use text.Mathlib.TextLemmas.{cons≢nil}
use darm_guard.Prelude.{
  append-eq-nil, Bool, true, String, ◌≡◌, ◌≢◌, refl, inl, inr, none, some, List, [], ◌∷◌, ◌++◌, any,
  elem, string_eq, if◌then◌else◌, arith, Bool-cases, Option-cases,
}
use darm_guard.Prelude.Text.{starts_with, split}
use darm_guard.Prelude.Result.{Result, ok, err}
use darm_guard.Path.{slash, path_kind, prefix_problem}
use darm_guard.Path.Components.{below, directories, prefix_problem-none}
use darm_guard.Registry.{
  Policy, derived, authoritative, untrusted, assign_prov, check_prefixes, tool_problems,
  pattern_problems, pattern_kind, problem_of,
}

-- a pattern that admits the value by its text, and by its components too if it is a path
abbrev pub admits : String → String → Bool
admits v p = if starts_with p "/" then below (directories p) (split slash v) else starts_with v p

starts_with-ne : (p : String) → starts_with p "/" ≡ true → p ≢ ""
unfolding starts_with
starts_with-ne String.[] h e = cc
starts_with-ne (String.◌∷◌ c p) h e = cons≢nil e

module _ (normal_url : String → Bool) where
  problem_of-nil :
      (p : String)
      → problem_of normal_url (some path_kind) p ≡ []
      → prefix_problem normal_url p path_kind ≡ none
  unfolding problem_of
  problem_of-nil p h = elim (Option-cases (prefix_problem normal_url p path_kind)) [
    | inl e ↦ e
    | inr (why, e) ↦ ground (arith, e, h)
  ]

  pattern_problems-nil :
      (v : String) (ps : List String)
      → pattern_problems normal_url ps ≡ []
      → any (λ p. starts_with v p) ps ≡ any (admits v) ps
  unfolding pattern_problems pattern_kind problem_of
  pattern_problems-nil v [] h = refl
  pattern_problems-nil v (p ∷ rest) h =
      let (here, there) =
        append-eq-nil (problem_of normal_url (pattern_kind p) p) (pattern_problems normal_url rest)
          h in
      elim (Bool-cases (starts_with p "/")) [
        | inl s ↦
            let free : prefix_problem normal_url p path_kind ≡ none =
              problem_of-nil p (ground (arith, here, s)) in
            ground (
              arith,
              s,
              prefix_problem-none normal_url p v free (starts_with-ne p s),
              pattern_problems-nil v rest there,
            )
        | inr s ↦ ground (arith, s, pattern_problems-nil v rest there)
      ]

  check_prefixes-ok :
      (policy : Policy) (patterns : List String)
      → check_prefixes normal_url policy patterns ≡ ok tt
      → tool_problems normal_url policy.tools ++ pattern_problems normal_url patterns ≡ []
  unfolding check_prefixes
  check_prefixes-ok policy patterns h =
      go (tool_problems normal_url policy.tools ++ pattern_problems normal_url patterns) h
    where
      go :
          (xs : List String)
          → elim xs as (λ _. Result (List String) (Unit {0})) [
            | [] ↦ ok tt
            | p ∷ rest ↦ err (p ∷ rest)
          ]
            ≡ ok tt
          → xs ≡ []
      go [] e = refl
      go (x ∷ xs) e = cc

  -- Under a configuration that loads, a value is derived exactly when it is not registered and a
  -- pattern admits it, path patterns being read by components.
  pub assign_prov-derived :
      (policy : Policy) (registry patterns : List String) (v : String)
      → check_prefixes normal_url policy patterns ≡ ok tt
      → assign_prov registry v patterns ≡ (
          if elem v registry
          then authoritative
          else if any (admits v) patterns
          then derived
          else untrusted)
  unfolding check_prefixes assign_prov
  assign_prov-derived policy registry patterns v h = elim (Bool-cases (elem v registry)) [
    | inl e ↦ rw e refl
    | inr e ↦
        rw
          (
            e,
            pattern_problems-nil v patterns
                (append-eq-nil (tool_problems normal_url policy.tools)
                  (pattern_problems normal_url patterns) (check_prefixes-ok policy patterns h)).1,
          )
          refl
  ]
