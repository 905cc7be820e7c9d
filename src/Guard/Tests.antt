-- ===== src/Guard/Tests.antt =====
-- A credential for reading, a policy for reading and writing.
use darm_guard.Prelude.{ℕ, false, String, ◌≡◌, refl, some, List, [], ◌∷◌, string_eq}
use darm_guard.Guard.{Credential, GuardPolicy, Session, count_violations, check}

abbrev reader : Credential
reader = record {
  tools = "read" ∷ [];
  actor = "a";
  boundary = "default";
  issued_at = some 10;
  ttl = some 5;
}

abbrev policy : GuardPolicy
policy = record { authorized_tools = "read" ∷ "write" ∷ []; boundary = "default" }

abbrev session : Session
session = record {
  credential = reader;
  policy = policy;
  cumulative_scope = [];
  log = [];
  on_drift = some [];
  on_violation = some [];
}

abbrev requests : List (List String × ℕ)
requests = ("write" ∷ [], 11) ∷ ("delete" ∷ [], 12) ∷ []

-- a call that is refused because the credential expired is not counted as a violation
expired_unnoticed :
    ((check ("read" ∷ []) 20 session).0.admitted ≡ false)
    × (count_violations (check ("read" ∷ []) 20 session).1 ≡ 0)
unfolding check count_violations
expired_unnoticed = (refl, refl)
