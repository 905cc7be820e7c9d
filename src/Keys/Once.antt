-- ===== src/Keys/Once.antt =====
-- Under one key there is at most one effect.
use darm_guard.Prelude.{
  ℕ, ◌+◌, ◌≤◌, Bool, true, false, ◌&&◌, String, ◌≡◌, refl, ap, ◌∙◌, ◌⊎◌, inl, inr, Option, none,
  some, List, [], ◌∷◌, ◌==◌, string_eq, option_eq, option_beq_iff, if◌then◌else◌, arith, eq_iff,
  ==-refl, Bool-cases, Option-cases,
}
use darm_guard.Prelude.Dict
use darm_guard.Prelude.Dict.{Dict, get-put}
use darm_guard.Keys.{
  Effect, succeeded, failed, unknown, Prior, Attempt, Answer, earlier_failed, unresolved,
  already_applied, performed, is_malformed, duplicate, state_after, set_key, perform, look_up,
  prior, handle_key,
}

abbrev pub is_performed : Answer → Bool
is_performed (performed e) = true
is_performed _ = false

-- how many of the requests with this key are performed, one after another
abbrev pub performed_under : String → List Attempt → Dict Prior → ℕ
performed_under k [] keys = 0
performed_under k (a ∷ rest) keys =
    (if a.key == some k && is_performed (handle_key a keys).0 then 1 else 0)
    + performed_under k rest (handle_key a keys).1

-- the table after the requests
abbrev pub keys_after : List Attempt → Dict Prior → Dict Prior
keys_after [] keys = keys
keys_after (a ∷ rest) keys = keys_after rest (handle_key a keys).1

abbrev pub known : String → Dict Prior → Bool
known k keys = elim (Dict.get k keys) [ none ↦ false | some p ↦ true ]

duplicate-unperformed : (p : Prior) (h : Option String) → is_performed (duplicate p h) ≡ false
unfolding duplicate
duplicate-unperformed p none = refl
duplicate-unperformed p (some h) = ground (arith)

-- a known key: nothing is performed, and the table stays
handle_key-prior :
    (k : String) (a : Attempt) (keys : Dict Prior) (p : Prior)
    → a.key ≡ some k
    → Dict.get k keys ≡ some p
    → (is_performed (handle_key a keys).0 ≡ false) × ((handle_key a keys).1 ≡ keys)
unfolding handle_key look_up prior
handle_key-prior k a keys p e g =
    rw (e, handle_key)
      (elim (Bool-cases (is_malformed (some k))) [
        | inl m ↦ rw m (refl, refl)
        | inr m ↦ rw (m, g) (duplicate-unperformed p a.hash, refl)
      ])

-- a new key: the request performs, and is known from then on, or the table stays
handle_key-new :
    (k : String) (a : Attempt) (keys : Dict Prior)
    → a.key ≡ some k
    → Dict.get k keys ≡ none
    → (is_performed (handle_key a keys).0 ≡ false) ⊎ (known k (handle_key a keys).1 ≡ true)
unfolding handle_key look_up prior perform set_key
handle_key-new k a keys e g =
    rw (e, handle_key)
      (elim (Bool-cases (is_malformed (some k))) [
        | inl m ↦ rw m (inl refl)
        | inr m ↦
            rw (m, g)
              (elim (Bool-cases a.admitted) [
                | inr x ↦ rw x (inl refl)
                | inl x ↦ elim (Bool-cases a.prepared) [
                  | inr y ↦ rw (x, y) (inl refl)
                  | inl y ↦
                      rw (x, y)
                        (inr (
                          ground (
                            arith,
                            get-put k k
                                (record {
                                  rid = a.rid;
                                  hash = a.hash;
                                  state = state_after a.effect;
                                  effect = some a.effect;
                                })
                                keys,
                            ==-refl k,
                          )))
                ]
              ])
      ])

-- the requests with other keys leave the entry of a key alone
set_key-other :
    (k : String) (o : Option String) (p : Prior) (keys : Dict Prior)
    → (o == some k) ≡ false
    → Dict.get k (set_key o p keys) ≡ Dict.get k keys
unfolding set_key
set_key-other k none p keys h = refl
set_key-other k (some j) p keys h =
    get-put j k p keys ∙ ground (arith, option_beq_iff (some j) (some k), eq_iff j k)

look_up-other :
    (k : String) (o : Option Prior) (a : Attempt) (keys : Dict Prior)
    → (a.key == some k) ≡ false
    → Dict.get k (look_up o a keys).1 ≡ Dict.get k keys
unfolding look_up perform
look_up-other k (some p) a keys h = refl
look_up-other k none a keys h = elim (Bool-cases a.admitted) [
  | inr x ↦ rw x refl
  | inl x ↦ elim (Bool-cases a.prepared) [
    | inr y ↦ rw (x, y) refl
    | inl y ↦
        rw (x, y)
          (set_key-other k a.key
            (record {
              rid = a.rid;
              hash = a.hash;
              state = state_after a.effect;
              effect = some a.effect;
            })
            keys h)
  ]
]

handle_key-other :
    (k : String) (a : Attempt) (keys : Dict Prior)
    → (a.key == some k) ≡ false
    → Dict.get k (handle_key a keys).1 ≡ Dict.get k keys
unfolding handle_key
handle_key-other k a keys h = elim (Bool-cases (is_malformed a.key)) [
  | inl m ↦ rw m refl
  | inr m ↦ rw m (look_up-other k (prior a.key keys) a keys h)
]

-- Of all requests with one key, in any sequence of requests, at most one is performed, and none if
-- the key is in the table already.
pub performed_at_most_once :
    (k : String) (requests : List Attempt) (keys : Dict Prior)
    → performed_under k requests keys ≤ (if known k keys then 0 else 1)
performed_at_most_once k [] keys = ground arith
performed_at_most_once k (a ∷ rest) keys =
    let later = performed_at_most_once k rest (handle_key a keys).1 in
    elim (Bool-cases (a.key == some k)) [
      | inr other ↦ ground (arith, other, later, handle_key-other k a keys other)
      | inl ours ↦
          let e : a.key ≡ some k = (option_beq_iff a.key (some k)).0 ours in
          elim (Option-cases (Dict.get k keys)) [
            | inr (p, g) ↦
                let (not_again, same) = handle_key-prior k a keys p e g in
                let tail = performed_at_most_once k rest keys in
                ground (arith, ours, not_again, g, ap (performed_under k rest) same, tail)
            | inl g ↦ elim (handle_key-new k a keys e g) [
              | inl n ↦ ground (arith, ours, n, g, later)
              | inr n ↦ ground (arith, ours, n, g, later)
            ]
          ]
    ]

keys_after-keeps :
    (k : String) (requests : List Attempt) (keys : Dict Prior) (p : Prior)
    → Dict.get k keys ≡ some p
    → Dict.get k (keys_after requests keys) ≡ some p
keys_after-keeps k [] keys p g = g
keys_after-keeps k (a ∷ rest) keys p g =
    keys_after-keeps k rest (handle_key a keys).1 p (kept (Bool-cases (a.key == some k)))
  where
    kept :
        (a.key == some k ≡ true) ⊎ (a.key == some k ≡ false)
        → Dict.get k (handle_key a keys).1 ≡ some p
    kept (inl ours) =
        ap (Dict.get k) (handle_key-prior k a keys p ((option_beq_iff a.key (some k)).0 ours) g).1
        ∙ g
    kept (inr other) = handle_key-other k a keys other ∙ g

performed-records :
    (k : String) (a : Attempt) (keys : Dict Prior) (e : Effect)
    → a.key ≡ some k
    → Dict.get k keys ≡ none
    → (handle_key a keys).0 ≡ performed e
    → (is_malformed (some k) ≡ false)
      × (Dict.get k (handle_key a keys).1
          ≡ some (record { rid = a.rid; hash = a.hash; state = state_after e; effect = some e }))
unfolding handle_key look_up prior perform set_key
performed-records k a keys e named g h =
    let h' = rw (named, handle_key) at h in
    elim (Bool-cases (is_malformed (some k))) [
      | inl m ↦ let h2 = rw m at h' in cc
      | inr m ↦
          let h2 = rw (m, g) at h' in
          elim (Bool-cases a.admitted) [
            | inr x ↦ let h3 = rw x at h2 in cc
            | inl x ↦ elim (Bool-cases a.prepared) [
              | inr y ↦ let h3 = rw (x, y) at h2 in cc
              | inl y ↦
                  let h3 = rw (x, y) at h2 in
                  let same : a.effect ≡ e = cc in
                  (
                    m,
                    rw (named, handle_key)
                        (rw (m, g)
                          (rw (x, y)
                            (get-put k k
                                (record {
                                  rid = a.rid;
                                  hash = a.hash;
                                  state = state_after a.effect;
                                  effect = some a.effect;
                                })
                                keys
                              ∙ ground (arith, ==-refl k, same)))),
                  )
            ]
          ]
    ]

abbrev pub retried : Effect → String → Answer
retried succeeded rid = already_applied rid
retried failed rid = earlier_failed
retried unknown rid = unresolved

-- A retry of a performed request, with its key and for its invocation, performs nothing, whatever
-- other requests came between: it is told that the first attempt's effect occurred, that it
-- failed, or that it is unresolved.
pub handle_key-retry :
    (k h : String) (a b : Attempt) (between : List Attempt) (keys : Dict Prior) (e : Effect)
    → a.key ≡ some k
    → a.hash ≡ some h
    → Dict.get k keys ≡ none
    → (handle_key a keys).0 ≡ performed e
    → b.key ≡ some k
    → b.hash ≡ some h
    → (handle_key b (keys_after between (handle_key a keys).1)).0 ≡ retried e a.rid
unfolding handle_key look_up prior duplicate state_after
handle_key-retry k h a b between keys e named hashed g first named' hashed' =
    let (m, kept) = performed-records k a keys e named g first in
    let found = keys_after-keeps k between (handle_key a keys).1 _ kept in
    rw (named', handle_key) (rw (m, found) (rw (hashed', hashed) (answer e)))
  where
    answer :
        (x : Effect)
        → duplicate
            (record { rid = a.rid; hash = some h; state = state_after x; effect = some x })
            (some h)
          ≡ retried x a.rid
    answer succeeded = ground (arith, ==-refl h)
    answer failed = ground (arith, ==-refl h)
    answer unknown = ground (arith, ==-refl h)
