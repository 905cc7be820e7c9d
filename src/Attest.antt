-- ===== src/Attest.antt =====
-- darm_guard/attest.py, `KeyRing`; and, of darm_guard/broker.py, the check of attestations and the
-- verdict on a read. Raw bytes (keys, signatures, digests) are texts.
pub mod Ring
pub mod Reads
pub mod Tests
use Prim.Native.String.{◌++◌ as concat}
use darm_guard.Prelude.{
  ℕ, Bool, true, false, not, ◌&&◌, ◌||◌, String, Option, none, some, List, [], ◌∷◌, any, ◌==◌, ◌!=◌,
  string_eq, option_eq, pair_eq, if◌then◌else◌,
}
use darm_guard.Prelude.Result.{Result, ok, err}
use darm_guard.Prelude.Text.{decimal}
use darm_guard.Prelude.Dict
use darm_guard.Prelude.Dict.{Dict}

-- Ed25519 as the package `cryptography` gives it, and `key_id`.
pub record Scheme : Type 0 where
  pub public_of : String → String
  pub sign : String → String → String
  pub check : String → String → String → Bool
  pub key_id : String → String

pub record KeyRing : Type 0 where
  pub private : Option String
  pub publics : Dict String
  pub active : Option String

-- What `getxattr` returns, read as JSON: a v2 attestation, a v1 one, or neither.
pub record Attestation : Type 0 where
  pub rid : String
  pub target : String
  pub digest : String
  pub kid : String
  pub sig : String

pub record Legacy : Type 0 where
  pub rid : String
  pub target : String
  pub digest : String
  pub mac : String

pub data Raw : Type 0 where
  v2 : Attestation → Raw
  v1 : Legacy → Raw
  garbled : Raw

pub data Why : Type 0 where
  unknown_key invalid not_v2 cannot_sign : Why

abbrev pub bar : String → String → String
bar x y = concat x (concat "|" y)

-- `_message`
abbrev pub message : String → String → String → String
message rid target digest = bar "darm-attest-v2" (bar rid (bar target digest))

-- `_checkpoint_message`
abbrev pub checkpoint_message : String → ℕ → String → String
checkpoint_message genesis count head =
    bar "darm-checkpoint-v1" (bar genesis (bar (decimal count) head))

-- A signed chain head: the JSON object of `sign_checkpoint`.
pub record Checkpoint : Type 0 where
  pub genesis : String
  pub count : ℕ
  pub head : String
  pub kid : String
  pub sig : String

module _ (s : Scheme) where
  -- `KeyRing.__init__`
  unfoldable pub make_ring : Option String → Dict String → KeyRing
  unfolding Dict.put
  make_ring none publics = record { private = none; publics = publics; active = none }
  make_ring (some private) publics = record {
    private = some private;
    publics = Dict.put (s.key_id (s.public_of private)) (s.public_of private) publics;
    active = some (s.key_id (s.public_of private));
  }

  -- `rotate`, with the private key that `generate` returned
  unfoldable pub rotate : String → KeyRing → KeyRing
  unfolding Dict.put
  rotate fresh ring = record {
    private = some fresh;
    publics = Dict.put (s.key_id (s.public_of fresh)) (s.public_of fresh) ring.publics;
    active = some (s.key_id (s.public_of fresh));
  }

  -- `public_only`
  unfoldable pub public_only : KeyRing → KeyRing
  unfolding make_ring
  public_only ring = make_ring none ring.publics

  -- `can_sign`
  abbrev pub can_sign : KeyRing → Bool
  can_sign ring = elim ring.private [ none ↦ false | some _ ↦ true ]

  signed : Option String → String → String → String → String → Attestation
  signed active key rid target digest = record {
    rid = rid;
    target = target;
    digest = digest;
    kid = elim active [ none ↦ "" | some kid ↦ kid ];
    sig = s.sign key (message rid target digest);
  }

  -- `sign`
  unfoldable pub sign : KeyRing → String → String → String → Result Why Raw
  unfolding signed
  sign ring rid target digest = elim ring.private [
    | none ↦ err cannot_sign
    | some key ↦ ok (v2 (signed ring.active key rid target digest))
  ]

  -- `verify`
  unfoldable pub verify : KeyRing → Raw → Result Why Attestation
  unfolding Dict.get
  verify ring (v2 a) = elim (Dict.get a.kid ring.publics) [
    | none ↦ err unknown_key
    | some pub_key ↦
        if s.check pub_key (message a.rid a.target a.digest) a.sig then ok a else err invalid
  ]
  verify ring (v1 a) = err not_v2
  verify ring garbled = err invalid

module _ (s : Scheme) where
  -- `sign_checkpoint`
  unfoldable pub sign_checkpoint : KeyRing → String → ℕ → String → Result Why Checkpoint
  sign_checkpoint ring genesis count head = elim ring.private [
    | none ↦ err cannot_sign
    | some key ↦ ok (record {
      genesis = genesis;
      count = count;
      head = head;
      kid = elim ring.active [ none ↦ "" | some kid ↦ kid ];
      sig = s.sign key (checkpoint_message genesis count head);
    })
  ]

  -- `verify_checkpoint`: `none` for `(True, None)`, else the reason
  unfoldable pub verify_checkpoint : KeyRing → Checkpoint → Option Why
  unfolding Dict.get
  verify_checkpoint ring cp = elim (Dict.get cp.kid ring.publics) [
    | none ↦ some unknown_key
    | some pub_key ↦
        if s.check pub_key (checkpoint_message cp.genesis cp.count cp.head) cp.sig
        then none
        else some invalid
  ]

-- `Keys`: the ring and the v1 secret
pub record Keys : Type 0 where
  pub ring : KeyRing
  pub legacy : Option String

pub data SchemeName : Type 0 where
  scheme_v2 scheme_legacy : SchemeName

pub record Checked : Type 0 where
  pub rid : String
  pub target : String
  pub digest : String
  pub scheme : SchemeName

-- `keys.legacy` as a condition: present and not empty
abbrev usable : Option String → Option String
usable none = none
usable (some secret) = if secret == "" then none else some secret

-- What attributes a read, and what refuses it.
pub data Verdict : Type 0 where
  by_broker : String → SchemeName → Verdict
  by_principal : Verdict
  no_key not_attested not_verified : Verdict
  other_path changed stale : String → Verdict

pub data Op : Type 0 where
  write delete : Op

abbrev op_beq : Op → Op → Bool
op_beq write write = true
op_beq delete delete = true
op_beq _ _ = false

-- The log's latest entry for a path; `unconsulted` is `_NO_LOG`.
pub data Latest : Type 0 where
  unconsulted : Latest
  latest : Option (String × Op) → Latest

-- `latest is not _NO_LOG and latest != (a.get("rid"), "write")`
unfoldable pub is_stale : Latest → String → Bool
is_stale unconsulted rid = false
is_stale (latest none) rid = true
is_stale (latest (some (r, op))) rid = not (r == rid && op_beq op write)

abbrev pub is_attributed : Verdict → Bool
is_attributed (by_broker _ _) = true
is_attributed by_principal = true
is_attributed _ = false

-- `hmac` is the v1 authentication code.
module _ (s : Scheme) (hmac : String → String → String) where
  unfoldable pub check_legacy : Option String → Legacy → Option Checked
  check_legacy none a = none
  check_legacy (some secret) a =
      if hmac secret (bar a.rid (bar a.target a.digest)) == a.mac
      then some
          (record { rid = a.rid; target = a.target; digest = a.digest; scheme = scheme_legacy })
      else none

  -- `_check_attestation` for keys and bytes that are there
  unfoldable pub check_attestation : Keys → Raw → Option Checked
  unfolding verify check_legacy
  check_attestation keys (v2 a) = elim (verify s keys.ring (v2 a)) [
    | ok b ↦ some (record { rid = b.rid; target = b.target; digest = b.digest; scheme = scheme_v2 })
    | err _ ↦ none
  ]
  check_attestation keys (v1 a) = check_legacy (usable keys.legacy) a
  check_attestation keys garbled = none

  judge : String → String → Latest → Option Checked → Verdict
  unfolding is_stale
  judge path digest last none = not_verified
  judge path digest last (some a) =
      if a.target != path
      then other_path a.rid
      else if a.digest != digest
      then changed a.rid
      else if is_stale last a.rid
      then stale a.rid
      else by_broker a.rid a.scheme

  -- `_broker_verdict`
  unfoldable pub broker_verdict : Option Keys → String → String → Option Raw → Latest → Verdict
  unfolding check_attestation judge
  broker_verdict none path digest raw last = no_key
  broker_verdict (some keys) path digest none last = not_attested
  broker_verdict (some keys) path digest (some raw) last =
      judge path digest last (check_attestation keys raw)

  -- `_vouched`: a line of the manifest is the list of its words
  unfoldable pub vouched : Option (List (List String)) → String → String → Bool
  vouched none path digest = false
  vouched (some lines) path digest =
      any
        (λ words. elim words [ p ∷ d ∷ [] ↦ p == path && d == concat "sha256=" digest | _ ↦ false ])
        lines

  -- `_read_verdict`, for the digest of the content read
  unfoldable pub read_verdict :
      Option Keys → String → String → Option Raw → Option (List (List String)) → Latest → Verdict
  unfolding broker_verdict vouched
  read_verdict keys path digest raw manifest last =
      let verdict = broker_verdict keys path digest raw last in
      if not (is_attributed verdict) && vouched manifest path digest then by_principal else verdict
