-- ===== src/Effect/Calls.antt =====
-- What the system calls do, in the cases that the proofs need.
use darm_guard.Prelude.{
  true, false, String, ◌≡◌, refl, ◌∙◌, Option, none, some, List, [], ◌∷◌, All, ◌==◌, string_eq,
  if◌then◌else◌, arith,
}
use darm_guard.Prelude.Dict
use darm_guard.Prelude.Dict.{get-put, get-remove}
use darm_guard.Prelude.Result.{ok, err}
use darm_guard.Intent.{Observed, absent, present, unavailable}
use darm_guard.Effect.{
  Node, regular, special, Disk, World, Errno, escapes, exists, not_found, act, left, turn, at,
  rename_noreplace, rename_exchange, unlink, digest_at, leaf_kind, kind_of, set_att, put_att,
  digest_of, leaf_state, state_of, present_at,
}

-- Other processes leave a name alone.
abbrev pub Keeps : String → List (Disk → Disk) → Type 0
Keeps name = All (λ f. (d : Disk) → Dict.get name (f d) ≡ Dict.get name d)

pub at-turn : (name : String) (w : World) → Keeps name w.foreign → at name (turn w) ≡ at name w
unfolding turn act
at-turn name w k = go w.foreign k
  where
    go :
        (fs : List (Disk → Disk))
        → Keeps name fs
        → Dict.get name (act fs w.disk) ≡ Dict.get name w.disk
    go [] k = refl
    go (f ∷ rest) k = k.0 w.disk

pub Keeps-turn : (name : String) (w : World) → Keeps name w.foreign → Keeps name (turn w).foreign
unfolding turn left
Keeps-turn name w k = go w.foreign k
  where
    go : (fs : List (Disk → Disk)) → Keeps name fs → Keeps name (left fs)
    go [] k = tt
    go (f ∷ rest) k = k.1

pub rename_exchange-ok :
    (src dst : String) {a b : Node} (w : World)
    → at src (turn w) ≡ some a
    → at dst (turn w) ≡ some b
    → rename_exchange true src dst w
      ≡ (ok tt, record (turn w) { disk = Dict.put dst a (Dict.put src b (turn w).disk) })
unfolding rename_exchange
rename_exchange-ok src dst w p q = rw (p, q) refl

pub rename_exchange-no_source :
    (src dst : String) (w : World)
    → at src (turn w) ≡ none
    → rename_exchange true src dst w ≡ (err not_found, turn w)
unfolding rename_exchange
rename_exchange-no_source src dst w p = rw p refl

pub rename_exchange-no_target :
    (src dst : String) {a : Node} (w : World)
    → at src (turn w) ≡ some a
    → at dst (turn w) ≡ none
    → rename_exchange true src dst w ≡ (err not_found, turn w)
unfolding rename_exchange
rename_exchange-no_target src dst w p q = rw (p, q) refl

pub rename_noreplace-ok :
    (src dst : String) {a : Node} (w : World)
    → at src (turn w) ≡ some a
    → at dst (turn w) ≡ none
    → rename_noreplace true src dst w
      ≡ (ok tt, record (turn w) { disk = Dict.put dst a (Dict.remove src (turn w).disk) })
unfolding rename_noreplace
rename_noreplace-ok src dst w p q = rw (p, q) refl

pub rename_noreplace-exists :
    (src dst : String) {a b : Node} (w : World)
    → at src (turn w) ≡ some a
    → at dst (turn w) ≡ some b
    → rename_noreplace true src dst w ≡ (err exists, turn w)
unfolding rename_noreplace
rename_noreplace-exists src dst w p q = rw (p, q) refl

pub rename_noreplace-no_source :
    (src dst : String) (w : World)
    → at src (turn w) ≡ none
    → rename_noreplace true src dst w ≡ (err not_found, turn w)
unfolding rename_noreplace
rename_noreplace-no_source src dst w p = rw p refl

pub unlink-ok :
    (name : String) {a : Node} (w : World)
    → at name (turn w) ≡ some a
    → unlink name w ≡ (ok tt, record (turn w) { disk = Dict.remove name (turn w).disk })
unfolding unlink
unlink-ok name w p = rw p refl

pub leaf_kind-is :
    (name : String) {n : Option Node} (w : World)
    → at name (turn w) ≡ n
    → leaf_kind name w ≡ (kind_of n, turn w)
unfolding leaf_kind
leaf_kind-is name w p = rw p refl

pub set_att-ok :
    (name : String) (value : Option String) {c : String} {a : Option String} (w : World)
    → at name (turn w) ≡ some (regular c a)
    → set_att name value w
      ≡ (ok tt, record (turn w) { disk = Dict.put name (regular c value) (turn w).disk })
unfolding set_att
set_att-ok name value w p = rw p refl

-- only the renames need renameat2, and their errors are caught
pub set_att-supported :
    (name : String) (value : Option String) (w : World) → escapes (set_att name value w).0 ≡ false
unfolding set_att put_att
set_att-supported name value w = go (at name (turn w))
  where
    go : (n : Option Node) → escapes (put_att name value n (turn w)).0 ≡ false
    go none = refl
    go (some special) = refl
    go (some (regular c a)) = refl

module _ (sha256 : String → String) where
  pub digest_at-supported :
      (name : String) (w : World) → escapes (digest_at sha256 name w).0 ≡ false
  unfolding digest_at digest_of
  digest_at-supported name w = go (at name (turn w))
    where
      go : (n : Option Node) → escapes (digest_of sha256 n) ≡ false
      go none = refl
      go (some special) = refl
      go (some (regular c a)) = refl

  pub digest_at-regular :
      (name : String) {c : String} {a : Option String} (w : World)
      → at name (turn w) ≡ some (regular c a)
      → digest_at sha256 name w ≡ (ok (sha256 c), turn w)
  unfolding digest_at
  digest_at-regular name w p = rw p refl

  pub digest_at-special :
      (name : String) (w : World)
      → at name (turn w) ≡ some special
      → digest_at sha256 name w ≡ (err Errno.not_regular, turn w)
  unfolding digest_at
  digest_at-special name w p = rw p refl

  -- what is observed of a node, while no one else acts
  abbrev pub observed_node : Option Node → Observed
  observed_node none = absent
  observed_node (some (regular c a)) = present (sha256 c)
  observed_node (some special) = unavailable "target is not a regular file"

  pub leaf_state-calm :
      (name : String) (n : Option Node) (d : Disk)
      → Dict.get name d ≡ n
      → leaf_state sha256 name (record { disk = d; foreign = [] })
        ≡ (ok (observed_node n), record { disk = d; foreign = [] })
  unfolding leaf_state leaf_kind kind_of state_of digest_at digest_of present_at turn act left
  leaf_state-calm name none d g = rw g refl
  leaf_state-calm name (some (regular c a)) d g = rw g (rw g refl)
  leaf_state-calm name (some special) d g = rw g refl

-- the names after an exchange
pub get-exchanged :
    (src dst n : String) (a b : Node) (d : Disk)
    → Dict.get n (Dict.put dst a (Dict.put src b d))
      ≡ (if dst == n then some a else if src == n then some b else Dict.get n d)
get-exchanged src dst n a b d =
    get-put dst n a (Dict.put src b d) ∙ ground (arith, get-put src n b d)

-- the names after a rename
pub get-moved :
    (src dst n : String) (a : Node) (d : Disk)
    → Dict.get n (Dict.put dst a (Dict.remove src d))
      ≡ (if dst == n then some a else if src == n then none else Dict.get n d)
get-moved src dst n a d = get-put dst n a (Dict.remove src d) ∙ ground (arith, get-remove src n d)
