-- ===== src/Fetch/Checked.antt =====
-- Which servers a call reaches, and what reaches the agent.
use darm_guard.Prelude.{
  ℕ, true, String, ◌≡◌, inl, inr, Option, none, some, List, [], ◌∷◌, All, arith, Bool-cases,
  Option-cases,
}
use darm_guard.Fetch.{
  Net, CredentialRule, Server, Sending, not_sent, no_answer, answered, Fetched, unsent, unknown,
  succeeded, address_refused, best_rule, receive, contact, with_rule, first_refused, fetch_resolved,
  fetch,
}

-- the server that a call was connected to
abbrev pub reached : Fetched → Option Server
reached (unsent s) = some s
reached (unknown s) = some s
reached (succeeded s c) = some s
reached _ = none

-- the part of a list of addresses that a connection is made to
abbrev pub IsHead : String → List String → Type 0
IsHead ip [] = ⊥
IsHead ip (x ∷ rest) = x ≡ ip

module _ (net : Net) (credentials : List CredentialRule) (allow : List String) (max_body : ℕ) where
  contact-reached :
      (url ip : String) (cred : Option (String × String)) (s : Server)
      → reached (contact net credentials allow max_body url ip cred) ≡ some s
      → ip ≡ s.address
  unfolding contact receive
  contact-reached url ip cred s h = elim (Option-cases (net.connect ip (net.host_of url))) [
    | inl e ↦ let h' = rw (e, contact) at h in cc
    | inr (cert, e) ↦ let h' = rw (e, contact) at h in go (net.send url cred) cert h'
  ]
    where
      go :
          (x : Sending) (cert : String)
          → reached
              (receive net credentials allow max_body cred (record { address = ip; cert = cert }) x)
            ≡ some s
          → ip ≡ s.address
      go not_sent cert k = ground arith
      go no_answer cert k = ground arith
      go (answered r) cert k = ground arith

  with_rule-reached :
      (url ip : String) (c : Option CredentialRule) (s : Server)
      → reached (with_rule net credentials allow max_body url ip c) ≡ some s
      → ip ≡ s.address
  unfolding with_rule
  with_rule-reached url ip none s h = contact-reached url ip none s h
  with_rule-reached url ip (some c) s h = elim (Option-cases (net.read_file c.value_file)) [
    | inl e ↦ let h' = rw (e, with_rule) at h in cc
    | inr (value, e) ↦ contact-reached url ip _ s (rw (e, with_rule) at h)
  ]

  first_refused-none :
      (host : String) (ips : List String)
      → first_refused net credentials allow max_body host ips ≡ none
      → All (λ ip. address_refused net.ipv4_mapped net.kind_of ip host allow ≡ none) ips
  unfolding first_refused
  first_refused-none host [] h = tt
  first_refused-none host (ip ∷ rest) h =
      elim (Option-cases (address_refused net.ipv4_mapped net.kind_of ip host allow)) [
        | inl e ↦ (e, first_refused-none host rest (ground (arith, e)))
        | inr (why, e) ↦ ground (arith, e)
      ]

  -- A call that reaches a server has a URL in normal form, all the addresses that its name resolved
  -- to may be contacted, not only the one that was, and that one is the first of them.
  pub fetch_reaches :
      (url : String) (s : Server)
      → reached (fetch net credentials allow max_body url) ≡ some s
      → (net.normal_url url ≡ true)
        × All
            (λ ip. address_refused net.ipv4_mapped net.kind_of ip (net.host_of url) allow ≡ none)
            (net.resolve (net.host_of url))
        × IsHead s.address (net.resolve (net.host_of url))
  unfolding fetch fetch_resolved
  fetch_reaches url s h = elim (Bool-cases (net.normal_url url)) [
    | inr n ↦ let h' = rw (n, fetch) at h in cc
    | inl n ↦ let (a, b) = go (net.resolve (net.host_of url)) (rw (n, fetch) at h) in (n, a, b)
  ]
    where
      go :
          (ips : List String)
          → reached (fetch_resolved net credentials allow max_body url ips) ≡ some s
          → All
              (λ ip. address_refused net.ipv4_mapped net.kind_of ip (net.host_of url) allow ≡ none)
              ips
            × IsHead s.address ips
      go [] k = cc
      go (ip ∷ rest) k =
          elim (Option-cases
            (first_refused net credentials allow max_body (net.host_of url) (ip ∷ rest))) [
              | inr ((bad, why), e) ↦ let k' = rw (e, fetch_resolved) at k in cc
              | inl e ↦ (
                first_refused-none (net.host_of url) (ip ∷ rest) e,
                with_rule-reached url ip (best_rule url credentials none) s
                    (rw (e, fetch_resolved) at k),
              )
            ]
