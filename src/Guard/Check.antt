-- ===== src/Guard/Check.antt =====
-- What the tool-level check admits, and how it classifies.
use darm_guard.Prelude.{
  ℕ, Bool, true, false, not, ◌&&◌, ◌||◌, String, ◌≡◌, refl, inl, inr, List, [], ◌∷◌, ◌++◌, any, all,
  elem, filter, elem-filter, string_eq, if◌then◌else◌, arith, ==-refl, Bool-cases,
}
use darm_guard.Guard.{
  authority, within, drift, violation, FailureWitness, Credential, GuardPolicy, is_expired,
  difference, is_empty, expiry_failures, unknown_failures, authority_failures, drift_of,
  check_failures, check_transfer,
}

pub all-elem :
    (p : String → Bool) (xs : List String)
    → ((t : String) → elem t xs ≡ true → p t ≡ true)
    → all p xs ≡ true
all-elem p [] h = refl
all-elem p (x ∷ xs) h = ground (arith, h x, ==-refl x, all-elem p xs (λ t m. h t (ground arith)))

authority_failures-nil :
    (unknown authorized ts : List String)
    → all (λ t. elem t unknown || elem t authorized) ts ≡ true
    → authority_failures unknown authorized ts ≡ []
unfolding authority_failures
authority_failures-nil unknown authorized [] h = refl
authority_failures-nil unknown authorized (t ∷ ts) h =
    ground (arith, authority_failures-nil unknown authorized ts)

-- whatever is not authorized is unknown already
no-authority_failures :
    (c : Credential) (requested : List String) (p : GuardPolicy)
    → authority_failures
        (difference (difference requested p.authorized_tools) c.tools)
        p.authorized_tools
        (difference requested c.tools)
      ≡ []
unfolding difference
no-authority_failures c requested p =
    authority_failures-nil _ p.authorized_tools (filter (λ x. not (elem x c.tools)) requested) (
      all-elem
        (λ x.
          elem x (difference (difference requested p.authorized_tools) c.tools)
          || elem x p.authorized_tools)
        (filter (λ x. not (elem x c.tools)) requested)
        (λ t m. ground (
          arith,
          elem-filter (λ x. not (elem x c.tools)) t requested,
          elem-filter (λ x. not (elem x c.tools)) t
              (filter (λ x. not (elem x p.authorized_tools)) requested),
          elem-filter (λ x. not (elem x p.authorized_tools)) t requested,
        )))

is_authority : FailureWitness → Bool
is_authority f = elim f.kind [ authority ↦ true | _ ↦ false ]

unknown-not-authority : (ts : List String) → any is_authority (unknown_failures ts) ≡ false
unfolding unknown_failures is_authority
unknown-not-authority [] = refl
unknown-not-authority (t ∷ ts) = unknown-not-authority ts

is_empty-unknown : (ts : List String) → is_empty (unknown_failures ts ++ []) ≡ is_empty ts
unfolding unknown_failures
is_empty-unknown [] = refl
is_empty-unknown (t ∷ ts) = refl

is_empty-filter :
    (q : String → Bool) (ts : List String) → is_empty (filter q ts) ≡ all (λ t. not (q t)) ts
is_empty-filter q [] = refl
is_empty-filter q (t ∷ ts) = ground (arith, is_empty-filter q ts)

is_empty-filters :
    (authorized own ts : List String)
    → is_empty (filter (λ x. not (elem x own)) (filter (λ x. not (elem x authorized)) ts))
      ≡ all (λ t. elem t authorized || elem t own) ts
is_empty-filters authorized own [] = refl
is_empty-filters authorized own (t ∷ ts) = ground (arith, is_empty-filters authorized own ts)

-- A request is admitted exactly when the credential has not expired and every requested tool is
-- authorized by the policy or held by the credential.
pub check_transfer-admitted :
    (c : Credential) (requested : List String) (p : GuardPolicy) (now : ℕ)
    → (check_transfer c requested p now).admitted
      ≡ (not (is_expired c now) && all (λ t. elem t p.authorized_tools || elem t c.tools) requested)
unfolding check_transfer check_failures expiry_failures difference
check_transfer-admitted c requested p now = rw (no-authority_failures c requested p) (
    ground (
      arith,
      is_empty-unknown (
          filter (λ x. not (elem x c.tools))
            (filter (λ x. not (elem x p.authorized_tools)) requested)),
      is_empty-filters p.authorized_tools c.tools requested,
    ))

-- A request within the credential is within; any other is drift if it is admitted, and otherwise a
-- violation.
pub check_transfer-drift_level :
    (c : Credential) (requested : List String) (p : GuardPolicy) (now : ℕ)
    → (check_transfer c requested p now).drift_level ≡ (
        if all (λ t. elem t c.tools) requested
        then within
        else if (check_transfer c requested p now).admitted
        then drift
        else violation)
unfolding check_transfer drift_of difference
check_transfer-drift_level c requested p now =
    ground (arith, is_empty-filter (λ x. not (elem x c.tools)) requested, not-not requested)
  where
    not-not :
        (ts : List String) → all (λ t. not (not (elem t c.tools))) ts ≡ all (λ t. elem t c.tools) ts
    not-not [] = refl
    not-not (t ∷ ts) = ground (arith, not-not ts)

-- No check ever reports an authority failure: a tool that the policy does not authorize is reported
-- as an observation failure before that branch is reached.
pub check_failures-no_authority :
    (c : Credential) (requested : List String) (p : GuardPolicy) (now : ℕ)
    → any (λ f. elim f.kind [ authority ↦ true | _ ↦ false ]) (check_failures c requested p now)
      ≡ false
unfolding check_failures expiry_failures is_authority unknown_failures
check_failures-no_authority c requested p now =
    let unknown = difference (difference requested p.authorized_tools) c.tools in
    rw (no-authority_failures c requested p) (elim (Bool-cases (is_expired c now)) [
      | inl e ↦ rw e (tail unknown)
      | inr e ↦ rw e (tail unknown)
    ])
  where
    tail : (ts : List String) → any is_authority (unknown_failures ts ++ []) ≡ false
    tail [] = refl
    tail (t ∷ ts) = tail ts
