-- ===== src/Fetch/Tests.antt =====
-- A server behind one public address, and two credentials.
use darm_guard.Prelude.{true, false, ◌≡◌, refl, none, some, List, [], ◌∷◌, All}
use darm_guard.Prelude.Text.{starts_with}
use darm_guard.Fetch.{
  Net, AddressKind, CredentialRule, Server, answered, address_refused, fetch, replace_text,
  content_of,
}
use darm_guard.Fetch.Checked.{IsHead, fetch_reaches}

abbrev public_kind : AddressKind
public_kind = record {
  is_loopback = false;
  is_link_local = false;
  is_private = false;
  is_multicast = false;
  is_reserved = false;
  is_unspecified = false;
}

abbrev net : Net
net = record {
  normal_url = λ u. true;
  host_of = λ u. "api.example";
  resolve = λ h. "192.0.2.1" ∷ [];
  ipv4_mapped = λ ip. none;
  kind_of = λ ip. public_kind;
  read_file = λ f. some "secret";
  connect = λ ip host. some "cert";
  send = λ url cred. answered (record {
    status = 302;
    content_type = "text/plain";
    location = "https://api.example/secret";
    body = "secret!";
  });
}

abbrev broad_rule : CredentialRule
broad_rule = record { prefix = "https://"; header = "X-Key"; value_file = "/keys/all" }

abbrev api_rule : CredentialRule
api_rule = record { prefix = "https://api."; header = "X-Key"; value_file = "/keys/api" }

abbrev rules : List CredentialRule
rules = broad_rule ∷ api_rule ∷ []

abbrev server : Server
server = record { address = "192.0.2.1"; cert = "cert" }

fetch_reaches_example :
    (net.normal_url "https://api.example/x" ≡ true)
    × All
        (λ ip.
          address_refused net.ipv4_mapped net.kind_of ip (net.host_of "https://api.example/x") []
          ≡ none)
        ("192.0.2.1" ∷ [])
    × IsHead "192.0.2.1" ("192.0.2.1" ∷ [])
unfolding fetch starts_with
fetch_reaches_example = fetch_reaches net rules [] 100 "https://api.example/x" server refl

-- the body withholds the credential, the location of a redirect repeats it
redirect :
    ((content_of 100 (some ("X-Key", "secret")) (record {
      status = 302;
      content_type = "";
      location = "https://api.example/secret";
      body = "a secret!";
    })).body
      ≡ "a [credential withheld]!")
    × ((content_of 100 (some ("X-Key", "secret")) (record {
      status = 302;
      content_type = "";
      location = "https://api.example/secret";
      body = "a secret!";
    })).location
        ≡ some "https://api.example/secret")
unfolding content_of replace_text starts_with
redirect = (refl, refl)
