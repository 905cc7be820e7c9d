-- ===== src/Guard.antt =====
-- darm_guard/types.py, checker.py, session.py and guard.py: the tool-level guard. A `frozenset` is
-- the list of its members in sorted order; times are microseconds. Of a `FailureWitness` the kind
-- and the tool are kept, its `detail` is text for a person.
pub mod Check
pub mod Scope
pub mod Tests
use Prim.Native.Nat.{Ordering}
use Prim.Native.String.{compare}
use darm_guard.Prelude.{
  ℕ, ◌+◌, Bool, true, false, not, ◌&&◌, String, Option, none, some, List, [], ◌∷◌, ◌++◌, map, elem,
  filter, ltb, length, ◌==◌, string_eq, if◌then◌else◌,
}

pub data FailureKind : Type 0 where
  observation domain_completeness authority temporal_freshness semantic_boundary : FailureKind

pub data DriftLevel : Type 0 where
  within drift violation : DriftLevel

pub record FailureWitness : Type 0 where
  pub kind : FailureKind
  pub tool : String

pub record Credential : Type 0 where
  pub tools : List String
  pub actor : String
  pub boundary : String
  pub issued_at : Option ℕ
  pub ttl : Option ℕ

pub record GuardPolicy : Type 0 where
  pub authorized_tools : List String
  pub boundary : String

pub record TransferResult : Type 0 where
  pub admitted : Bool
  pub drift_level : DriftLevel
  pub delta : List String
  pub failures : List FailureWitness
  pub timestamp : ℕ

-- `Credential.is_expired`
unfoldable pub is_expired : Credential → ℕ → Bool
is_expired c now = elim c.issued_at [
  | none ↦ false
  | some issued ↦ elim c.ttl [ none ↦ false | some ttl ↦ ltb (issued + ttl) now ]
]

-- `xs - ys`
unfoldable pub difference : List String → List String → List String
difference xs ys = filter (λ x. not (elem x ys)) xs

unfoldable pub insert_member : String → List String → List String
insert_member x [] = x ∷ []
insert_member x (y ∷ rest) = elim (compare x y) [
  | Ordering.lt ↦ x ∷ y ∷ rest
  | Ordering.eq ↦ y ∷ rest
  | Ordering.gt ↦ y ∷ insert_member x rest
]

-- `xs | ys`
unfoldable pub union : List String → List String → List String
unfolding insert_member
union xs [] = xs
union xs (y ∷ rest) = insert_member y (union xs rest)

abbrev is_empty : {A : Type 0} → List A → Bool
is_empty [] = true
is_empty (x ∷ xs) = false

unfoldable pub expiry_failures : Credential → ℕ → List FailureWitness
unfolding is_expired
expiry_failures c now =
    if is_expired c now then record { kind = temporal_freshness; tool = "*" } ∷ [] else []

unfoldable pub unknown_failures : List String → List FailureWitness
unknown_failures tools = map (λ t. record { kind = observation; tool = t }) tools

-- the loop over `sorted(delta)`
unfoldable pub authority_failures : List String → List String → List String → List FailureWitness
authority_failures unknown authorized [] = []
authority_failures unknown authorized (t ∷ rest) =
    let others = authority_failures unknown authorized rest in
    if elem t unknown
    then others
    else if not (elem t authorized)
    then record { kind = authority; tool = t } ∷ others
    else others

unfoldable pub drift_of : List String → List FailureWitness → DriftLevel
drift_of delta failures =
    if is_empty delta then within else if is_empty failures then drift else violation

unfoldable pub check_failures : Credential → List String → GuardPolicy → ℕ → List FailureWitness
unfolding expiry_failures unknown_failures authority_failures difference
check_failures c requested p now =
    let unknown = difference (difference requested p.authorized_tools) c.tools in
    expiry_failures c now
    ++ unknown_failures unknown
    ++ authority_failures unknown p.authorized_tools (difference requested c.tools)

-- `check_transfer`
unfoldable pub check_transfer : Credential → List String → GuardPolicy → ℕ → TransferResult
unfolding check_failures drift_of difference
check_transfer c requested p now = record {
  admitted = is_empty (check_failures c requested p now);
  drift_level = drift_of (difference requested c.tools) (check_failures c requested p now);
  delta = difference requested c.tools;
  failures = check_failures c requested p now;
  timestamp = now;
}

pub record SessionEvent : Type 0 where
  pub timestamp : ℕ
  pub requested_tools : List String
  pub cumulative_scope : List String
  pub result : TransferResult

-- `Session`. A callback is the list of the events that it was called with, `none` if it is not set.
pub record Session : Type 0 where
  pub credential : Credential
  pub policy : GuardPolicy
  pub cumulative_scope : List String
  pub log : List SessionEvent
  pub on_drift : Option (List SessionEvent)
  pub on_violation : Option (List SessionEvent)

call_back : SessionEvent → Option (List SessionEvent) → Option (List SessionEvent)
call_back e none = none
call_back e (some calls) = some (calls ++ e ∷ [])

unfoldable pub notify : DriftLevel → SessionEvent → Session → Session
unfolding call_back
notify within e s = s
notify drift e s = record s { on_drift = call_back e s.on_drift }
notify violation e s = record s { on_violation = call_back e s.on_violation }

-- a request within the credential counts as drift once the session has gone beyond it
unfoldable pub cumulative : List String → TransferResult → TransferResult
cumulative [] r = r
cumulative (t ∷ rest) r = elim r.drift_level [ within ↦ record r { drift_level = drift } | _ ↦ r ]

-- `Session.check`
unfoldable pub check : List String → ℕ → Session → TransferResult × Session
unfolding check_transfer cumulative notify union difference
check requested now s =
    let scope = union s.cumulative_scope requested in
    let r =
      cumulative (difference scope s.credential.tools)
        (check_transfer s.credential requested s.policy now) in
    let e : SessionEvent = record {
      timestamp = now;
      requested_tools = requested;
      cumulative_scope = scope;
      result = r;
    } in
    (r, notify r.drift_level e (record s { cumulative_scope = scope; log = s.log ++ e ∷ [] }))

abbrev is_violation : SessionEvent → Bool
is_violation e = elim e.result.drift_level [ violation ↦ true | _ ↦ false ]

-- `violations` and `delta` of `scope_summary`
unfoldable pub count_violations : Session → ℕ
count_violations s = length (filter is_violation s.log)

pub data Mode : Type 0 where
  observe govern enforce : Mode

pub record DarmGuard : Type 0 where
  pub mode : Mode
  pub session : Session

unfoldable pub observed : Mode → TransferResult → TransferResult
observed observe r = record r { admitted = true }
observed govern r = r
observed enforce r = r

-- `DARMGuard.check`, less its printing
unfoldable pub guard_check : List String → ℕ → DarmGuard → TransferResult × DarmGuard
unfolding check observed
guard_check requested now g =
    let (r, s) = check requested now g.session in (observed g.mode r, record g { session = s })

-- `update_credential`
unfoldable pub update_credential : List String → DarmGuard → DarmGuard
unfolding union
update_credential tools g = record g {
  session = record g.session {
    credential = record g.session.credential { tools = union g.session.credential.tools tools };
  };
}
