-- ===== src/Fetch.antt =====
-- darm_guard/http_get.py: which addresses may be contacted, which credential is attached, and what
-- becomes of a call. A body is text, decoded already; the port stays in the URL; the URL's parts, the
-- resolver, the network and the kinds of an address are parameters.
pub mod Checked
pub mod Credential
pub mod Tests
use Prim.Native.String.{◌++◌ as concat, count}
use darm_guard.Prelude.{
  ℕ, zero, suc, ◌+◌, ◌-◌, Bool, true, false, not, ◌&&◌, ◌||◌, String, Option, none, some, List, [],
  ◌∷◌, elem, ltb, leb, ◌==◌, ◌!=◌, string_eq, if◌then◌else◌,
}
use darm_guard.Prelude.Text.{starts_with, strip}

-- What `ipaddress` says of an address, an IPv4-mapped one read as IPv4.
pub record AddressKind : Type 0 where
  pub is_loopback : Bool
  pub is_link_local : Bool
  pub is_private : Bool
  pub is_multicast : Bool
  pub is_reserved : Bool
  pub is_unspecified : Bool

pub data Banned : Type 0 where
  loopback link_local private_net multicast reserved unspecified : Banned

-- one entry of the principal's credentials
pub record CredentialRule : Type 0 where
  pub prefix : String
  pub header : String
  pub value_file : String

pub record Response : Type 0 where
  pub status : ℕ
  pub content_type : String
  pub location : String
  pub body : String

-- what comes of writing the request on the connection
pub data Sending : Type 0 where
  not_sent no_answer : Sending
  answered : Response → Sending

pub record Server : Type 0 where
  pub address : String
  pub cert : String

pub record Content : Type 0 where
  pub status : ℕ
  pub content_type : String
  pub body : String
  pub truncated : Bool
  pub location : Option String

-- The dictionary that `fetch` returns, with the server where a connection was made.
pub data Fetched : Type 0 where
  not_normal not_resolved no_credential no_connection : Fetched
  banned : String → Banned → Fetched
  unsent unknown : Server → Fetched
  succeeded : Server → Content → Fetched

unfoldable pub ban : AddressKind → Option Banned
ban k =
    if k.is_loopback
    then some loopback
    else if k.is_link_local
    then some link_local
    else if k.is_private
    then some private_net
    else if k.is_multicast
    then some multicast
    else if k.is_reserved
    then some reserved
    else if k.is_unspecified
    then some unspecified
    else none

-- an IPv4 address that is written as an IPv6 address is judged as the IPv4 address
unfoldable pub judged_address : (String → Option String) → String → String
judged_address ipv4_mapped ip = elim (ipv4_mapped ip) [ none ↦ ip | some v4 ↦ v4 ]

-- `address_refused`; `ipv4_mapped` and the tests of `AddressKind` are those of `ipaddress`
unfoldable pub address_refused :
    (String → Option String)
    → (String → AddressKind)
    → String
    → String
    → List String
    → Option Banned
unfolding ban judged_address
address_refused ipv4_mapped kind_of ip host allow =
    if elem host allow || elem ip allow then none else ban (kind_of (judged_address ipv4_mapped ip))

-- the loop of `credential_for`
unfoldable pub best_rule :
    String → List CredentialRule → Option CredentialRule → Option CredentialRule
unfolding starts_with
best_rule url [] best = best
best_rule url (c ∷ rest) best =
    let better =
      starts_with url c.prefix
      && elim best [ none ↦ true | some b ↦ ltb (count b.prefix) (count c.prefix) ] in
    best_rule url rest (if better then some c else best)

-- `text.replace(key, with)` for a key that is not empty; `skip` characters belong to a match
unfoldable pub replace_text : String → String → ℕ → String → String
unfolding starts_with
replace_text key new skip String.[] = String.[]
replace_text key new (suc n) (String.◌∷◌ c s) = replace_text key new n s
replace_text key new zero (String.◌∷◌ c s) =
    let rest = replace_text key new (count key - 1) s in
    let others = replace_text key new zero s in
    if starts_with (String.◌∷◌ c s) key then concat new rest else String.◌∷◌ c others

-- `body[:n]`
unfoldable pub take_text : ℕ → String → String
take_text zero s = String.[]
take_text (suc n) String.[] = String.[]
take_text (suc n) (String.◌∷◌ c s) = String.◌∷◌ c (take_text n s)

abbrev pub withheld : String
withheld = "[credential withheld]"

-- the text that the agent gets
unfoldable pub conceal : Option (String × String) → String → String
unfolding replace_text
conceal none text = text
conceal (some (header, value)) text =
    if value == "" then text else replace_text value withheld 0 text

unfoldable pub content_of : ℕ → Option (String × String) → Response → Content
unfolding conceal take_text
content_of max_body cred r = record {
  status = r.status;
  content_type = r.content_type;
  body = conceal cred (take_text max_body r.body);
  truncated = ltb max_body (count r.body);
  location = if leb 300 r.status && ltb r.status 400 then some r.location else none;
}

-- What `fetch` is given and calls.
pub record Net : Type 0 where
  pub normal_url : String → Bool
  pub host_of : String → String
  pub resolve : String → List String
  pub ipv4_mapped : String → Option String
  pub kind_of : String → AddressKind
  pub read_file : String → Option String
  pub connect : String → String → Option String
  pub send : String → Option (String × String) → Sending

module _ (net : Net) (credentials : List CredentialRule) (allow : List String) (max_body : ℕ) where
  unfoldable pub receive : Option (String × String) → Server → Sending → Fetched
  unfolding content_of
  receive cred server not_sent = unsent server
  receive cred server no_answer = unknown server
  receive cred server (answered r) = succeeded server (content_of max_body cred r)

  unfoldable pub contact : String → String → Option (String × String) → Fetched
  unfolding receive
  contact url ip cred = elim (net.connect ip (net.host_of url)) [
    | none ↦ no_connection
    | some cert ↦ receive cred (record { address = ip; cert = cert }) (net.send url cred)
  ]

  unfoldable pub with_rule : String → String → Option CredentialRule → Fetched
  unfolding contact strip
  with_rule url ip none = contact url ip none
  with_rule url ip (some c) = elim (net.read_file c.value_file) [
    | none ↦ no_credential
    | some value ↦ contact url ip (some (c.header, strip value))
  ]

  -- the first address that is refused
  unfoldable pub first_refused : String → List String → Option (String × Banned)
  unfolding address_refused
  first_refused host [] = none
  first_refused host (ip ∷ rest) =
      elim (address_refused net.ipv4_mapped net.kind_of ip host allow) [
        | none ↦ first_refused host rest
        | some why ↦ some (ip, why)
      ]

  unfoldable pub fetch_resolved : String → List String → Fetched
  unfolding first_refused with_rule best_rule
  fetch_resolved url [] = not_resolved
  fetch_resolved url (ip ∷ rest) = elim (first_refused (net.host_of url) (ip ∷ rest)) [
    | some (bad, why) ↦ banned bad why
    | none ↦ with_rule url ip (best_rule url credentials none)
  ]

  -- `fetch`
  unfoldable pub fetch : String → Fetched
  unfolding fetch_resolved
  fetch url =
      if not (net.normal_url url)
      then not_normal
      else fetch_resolved url (net.resolve (net.host_of url))
