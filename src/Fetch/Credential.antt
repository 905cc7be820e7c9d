-- ===== src/Fetch/Credential.antt =====
-- Which credential a call gets.
use Prim.Native.String.{count}
use darm_guard.Prelude.{
  ◌≤◌, Bool, true, false, ◌&&◌, String, ◌≡◌, inl, inr, none, some, List, [], ◌∷◌, All, ltb, arith,
  Bool-cases,
}
use darm_guard.Prelude.Text.{starts_with}
use darm_guard.Fetch.{CredentialRule, best_rule}

abbrev matches : String → CredentialRule → Bool
matches url c = starts_with url c.prefix

-- No credential whose prefix the URL has is longer.
abbrev pub IsLongest : String → List CredentialRule → CredentialRule → Type 0
IsLongest url cs b = All (λ c. starts_with url c.prefix ≡ true → count c.prefix ≤ count b.prefix) cs

best_rule-some :
    (url : String) (cs : List CredentialRule) (b last : CredentialRule)
    → matches url b ≡ true
    → best_rule url cs (some b) ≡ some last
    → (matches url last ≡ true) × (count b.prefix ≤ count last.prefix) × IsLongest url cs last
unfolding best_rule
best_rule-some url [] b last m h = (ground arith, ground arith, tt)
best_rule-some url (c ∷ rest) b last m h =
    elim (Bool-cases (starts_with url c.prefix && ltb (count b.prefix) (count c.prefix))) [
      | inl e ↦
          let (m', le, all) = best_rule-some url rest c last (ground arith) (rw e at h) in
          (m', ground arith, ((λ k. le), all))
      | inr e ↦
          let (m', le, all) = best_rule-some url rest b last m (rw e at h) in
          (m', le, ((λ k. ground arith), all))
    ]

-- The credential that is attached to a call is one whose prefix the URL has, and none with a longer
-- prefix applies; if none is attached, none applies.
pub best_rule-IsLongest :
    (url : String) (cs : List CredentialRule)
    → ((b : CredentialRule)
        → best_rule url cs none ≡ some b
        → (starts_with url b.prefix ≡ true) × IsLongest url cs b)
      × (best_rule url cs none ≡ none → All (λ c. starts_with url c.prefix ≡ false) cs)
unfolding best_rule
best_rule-IsLongest url [] = (λ b h. cc, λ h. tt)
best_rule-IsLongest url (c ∷ rest) =
    let (some_case, none_case) = best_rule-IsLongest url rest in
    elim (Bool-cases (starts_with url c.prefix)) [
      | inr e ↦ (
        λ b h. let (m, all) = some_case b (rw e at h) in (m, ((λ k. ground (arith, e, k)), all)),
        λ h. (e, none_case (rw e at h)),
      )
      | inl e ↦ (
        λ b h.
            let (m, le, all) = best_rule-some url rest c b e (rw e at h) in (m, ((λ k. le), all)),
        λ h. absurd (never rest c (rw e at h)),
      )
    ]
  where
    never : (cs : List CredentialRule) (b : CredentialRule) → best_rule url cs (some b) ≡ none → ⊥
    never [] b h = cc
    never (x ∷ xs) b h =
        elim (Bool-cases (starts_with url x.prefix && ltb (count b.prefix) (count x.prefix))) [
          | inl e ↦ never xs x (rw e at h)
          | inr e ↦ never xs b (rw e at h)
        ]
