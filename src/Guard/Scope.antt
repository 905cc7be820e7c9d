-- ===== src/Guard/Scope.antt =====
-- A session of the tool-level guard: the scope that it accumulates, its log, and the modes.
use Prim.Native.Nat.{Ordering}
use Prim.Native.String.{compare}
use text.Mathlib.TextEquality.{path_by_compare}
use darm_guard.Prelude.{
  ℕ, ◌+◌, true, false, not, ◌&&◌, ◌||◌, String, ◌≡◌, refl, ap, ◌∙◌, List, [], ◌∷◌, ◌++◌, any, all,
  elem, length, length-append, ◌==◌, string_eq, arith,
}
use darm_guard.Guard.{
  DriftLevel, within, drift, violation, TransferResult, is_expired, difference, union,
  insert_member, check_transfer, Session, SessionEvent, notify, cumulative, check, enforce,
  DarmGuard, guard_check, update_credential, observed,
}
use darm_guard.Guard.Check.{all-elem, check_transfer-admitted}

elem-insert_member :
    (t x : String) (xs : List String) → elem t (insert_member x xs) ≡ (x == t || elem t xs)
unfolding insert_member
elem-insert_member t x [] = ground arith
elem-insert_member t x (y ∷ rest) = ground (
  arith,
  elem-insert_member t x rest,
  λ (e : compare x y ≡ Ordering.eq). ap {A = String} (λ z. z == t) (path_by_compare x y e),
)

pub elem-union :
    (t : String) (xs ys : List String) → elem t (union xs ys) ≡ (elem t xs || elem t ys)
unfolding union
elem-union t xs [] = ground arith
elem-union t xs (y ∷ ys) = ground (arith, elem-insert_member t y (union xs ys), elem-union t xs ys)

-- a session after a sequence of requests
abbrev pub after_checks : List (List String × ℕ) → Session → Session
after_checks [] s = s
after_checks ((tools, now) ∷ rest) s = after_checks rest (check tools now s).1

notify-keeps :
    (l : DriftLevel) (e : SessionEvent) (s : Session)
    → ((notify l e s).cumulative_scope ≡ s.cumulative_scope)
      × ((notify l e s).log ≡ s.log)
      × ((notify l e s).credential ≡ s.credential)
unfolding notify
notify-keeps within e s = (refl, refl, refl)
notify-keeps drift e s = (refl, refl, refl)
notify-keeps violation e s = (refl, refl, refl)

check-scope :
    (t : String) (tools : List String) (now : ℕ) (s : Session)
    → (elem t (check tools now s).1.cumulative_scope ≡ (elem t s.cumulative_scope || elem t tools))
      × (length (check tools now s).1.log ≡ length s.log + 1)
unfolding check
check-scope t tools now s =
    let scope = union s.cumulative_scope tools in
    let r =
      cumulative (difference scope s.credential.tools)
        (check_transfer s.credential tools s.policy now) in
    let e : SessionEvent = record {
      timestamp = now;
      requested_tools = tools;
      cumulative_scope = scope;
      result = r;
    } in
    let (c, l, k) =
      notify-keeps r.drift_level e (record s { cumulative_scope = scope; log = s.log ++ e ∷ [] }) in
    (
      ap (elem t) c ∙ elem-union t s.cumulative_scope tools,
      ap length l ∙ length-append s.log (e ∷ []),
    )

-- After any requests, admitted or not, the scope of a session is what it was and every tool that
-- was requested, and the log has one more event for each request.
pub after_checks_scope :
    (t : String) (requests : List (List String × ℕ)) (s : Session)
    → (elem t (after_checks requests s).cumulative_scope
        ≡ (elem t s.cumulative_scope || any (λ r. elem t r.0) requests))
      × (length (after_checks requests s).log ≡ length s.log + length requests)
after_checks_scope t [] s = (ground arith, omega arith)
after_checks_scope t ((tools, now) ∷ rest) s =
    let (c, l) = check-scope t tools now s in
    let (c', l') = after_checks_scope t rest (check tools now s).1 in
    (ground (arith, c, c'), omega (arith, l, l'))

pub cumulative-admitted :
    (xs : List String) (r : TransferResult) → (cumulative xs r).admitted ≡ r.admitted
unfolding cumulative
cumulative-admitted [] r = refl
cumulative-admitted (x ∷ xs) r = go r.drift_level refl
  where
    go : (l : DriftLevel) → r.drift_level ≡ l → (cumulative (x ∷ xs) r).admitted ≡ r.admitted
    go within e = rw e refl
    go drift e = rw e refl
    go violation e = rw e refl

check-admitted :
    (tools : List String) (now : ℕ) (s : Session)
    → (check tools now s).0.admitted ≡ (
        not (is_expired s.credential now)
        && all (λ t. elem t s.policy.authorized_tools || elem t s.credential.tools) tools)
unfolding check
check-admitted tools now s =
    cumulative-admitted (difference (union s.cumulative_scope tools) s.credential.tools)
      (check_transfer s.credential tools s.policy now)
    ∙ check_transfer-admitted s.credential tools s.policy now

-- Updating the credential only widens it: under a guard that enforces, what was admitted at a time
-- is admitted at that time after the update, and so is a request for the new tools alone if the
-- credential has not expired.
pub update_credential-admits :
    (tools new : List String) (now : ℕ) (s : Session)
    → let g : DarmGuard = record { mode = enforce; session = s } in
      ((guard_check tools now g).0.admitted ≡ true
        → (guard_check tools now (update_credential new g)).0.admitted ≡ true)
      × (is_expired s.credential now ≡ false
          → (guard_check new now (update_credential new g)).0.admitted ≡ true)
unfolding guard_check update_credential observed is_expired
update_credential-admits tools new now s =
    let s' : Session = record s {
      credential = record s.credential { tools = union s.credential.tools new };
    } in
    (
      λ h. ground (arith, check-admitted tools now s, check-admitted tools now s', wider tools),
      λ h. ground (
        arith,
        check-admitted new now s',
        all-elem (λ t. elem t s.policy.authorized_tools || elem t (union s.credential.tools new))
            new (λ t m. ground (arith, elem-union t s.credential.tools new)),
      ),
    )
  where
    wider :
        (ts : List String)
        → all (λ t. elem t s.policy.authorized_tools || elem t s.credential.tools) ts ≡ true
        → all (λ t. elem t s.policy.authorized_tools || elem t (union s.credential.tools new)) ts
          ≡ true
    wider [] h = refl
    wider (t ∷ ts) h = ground (arith, wider ts, elem-union t s.credential.tools new)
