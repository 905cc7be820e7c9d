-- ===== src/Kernel/Answers.antt =====
-- Which replies admit.
use darm_guard.Prelude.{
  true, false, String, ◌≡◌, ◌≢◌, refl, ◌↔◌, some, ◌==◌, string_eq, option_eq, arith, eq_iff,
  option_beq_iff, Bool-cases, inl, inr,
}
use darm_guard.Kernel.{
  Request, Members, no_object, object, Exchange, timeout, exited, unavailable, line, Client,
  read_members, read_exchange, client_decide,
}

module _ (exchange : Request → String → Exchange) where
  -- The client admits a request exactly when there is a kernel, and its reply is an object that
  -- carries the request's own nonce and the decision to admit: a timeout, a dead process, an
  -- unreadable line and the reply to another request are refusals.
  pub client_decide-admitted :
      (nonce : String) (request : Request) (c : Client)
      → ((client_decide exchange nonce request c).0.admitted ≡ true) ↔ (
          (c.path ≢ "")
          × ((m : Members) × (exchange request nonce ≡ line (object m))
              × (m.nonce ≡ some nonce)
              × (m.decision ≡ some "admit")))
  unfolding client_decide read_exchange read_members
  client_decide-admitted nonce request c = (
    λ h. elim (Bool-cases (c.path == "")) [
      | inl e ↦ ground (arith, e)
      | inr e ↦ (
        λ p. ground (arith, e, eq_iff c.path ""),
        read (exchange request nonce) (ground (arith, e)),
      )
    ],
    λ (p, (m, x, n, d)).
        let named : (c.path == "") ≡ false = ground (arith, p, eq_iff c.path "") in
        rw (named, x)
          (ground (
            arith,
            option_beq_iff m.nonce (some nonce),
            option_beq_iff m.decision (some "admit"),
            n,
            d,
          )),
  )
    where
      read :
          (x : Exchange)
          → (read_exchange nonce x c).0.admitted ≡ true
          → (m : Members) × (x ≡ line (object m))
            × (m.nonce ≡ some nonce)
            × (m.decision ≡ some "admit")
      read timeout h = cc
      read exited h = cc
      read unavailable h = cc
      read (line no_object) h = cc
      read (line (object m)) h = (
        m,
        refl,
        ground (arith, option_beq_iff m.nonce (some nonce)),
        ground
            (arith, option_beq_iff m.nonce (some nonce), option_beq_iff m.decision (some "admit")),
      )

  -- A client that refuses because it is out of step with the kernel stops it: after a refused reply
  -- to another request no process is left whose later replies could be read.
  pub client_decide-stops :
      (nonce : String) (request : Request) (c : Client) (m : Members)
      → c.path ≢ ""
      → exchange request nonce ≡ line (object m)
      → m.nonce ≢ some nonce
      → ((client_decide exchange nonce request c).0.admitted ≡ false)
        × ((client_decide exchange nonce request c).1.running ≡ false)
  unfolding client_decide read_exchange read_members
  client_decide-stops nonce request c m p x n =
      let named : (c.path == "") ≡ false = ground (arith, p, eq_iff c.path "") in
      let other : (m.nonce == some nonce) ≡ false =
        ground (arith, n, option_beq_iff m.nonce (some nonce)) in
      rw (named, x) (rw other (refl, refl))
