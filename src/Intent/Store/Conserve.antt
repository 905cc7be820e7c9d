-- ===== src/Intent/Store/Conserve.antt =====
-- Single use: an intent is held in the list, reserved for one request, or spent, and never twice.
use mathlib.Core.Path.{subst}
use darm_guard.Prelude.{
  ℕ, ◌+◌, true, false, String, ◌≡◌, ◌≢◌, refl, ap, ◌∙◌, inl, inr, none, some, List, [], ◌∷◌, ◌++◌,
  map, elem, distinct, ◌==◌, string_eq, pair_eq, list_eq, pair_beq_iff, ==-refl, if◌then◌else◌,
  arith, eq_iff, Bool-cases, Option-cases,
}
use darm_guard.Prelude.Dict
use darm_guard.Prelude.Dict.{Dict, get-remove}
use darm_guard.Intent.{Intent, insert_intent, order_intents}
use darm_guard.Intent.Store.{
  IntentStore, remove_first, reserve, settle, settle_with, settlement, Reconciliation,
  confirmed_success, confirmed_failure, unresolved, persist,
}

intent_same : (a b : Intent) → (a == b) ≡ true → a ≡ b
intent_same a b h = (pair_beq_iff a b).0 h

-- How often an intent is available.
abbrev pub count : Intent → List Intent → ℕ
count i [] = 0
count i (j ∷ rest) = (if j == i then 1 else 0) + count i rest

-- How often an intent is reserved.
abbrev pub count_reserved : Intent → Dict Intent → ℕ
count_reserved i [] = 0
count_reserved i ((r, j) ∷ rest) = (if j == i then 1 else 0) + count_reserved i rest

abbrev pub held : Intent → IntentStore → ℕ
held i st = count i st.intents + count_reserved i st.reserved

-- How many of an intent a verdict uses up.
abbrev pub uses : Reconciliation → Intent → Intent → ℕ
uses confirmed_success used i = if used == i then 1 else 0
uses confirmed_failure used i = 0
uses unresolved used i = 0

-- What a verdict on request `rid` does with the intent `used` that was reserved for it: the places
-- where a copy of `i` is counted, and whether the request still holds one.
abbrev pub IsSettled :
    Intent → String → Intent → Reconciliation → IntentStore → IntentStore → Type 0
IsSettled i rid used confirmed_success st st' =
    (count i st'.intents ≡ count i st.intents) × (Dict.get rid st'.reserved ≡ none)
IsSettled i rid used confirmed_failure st st' =
    (count i st'.intents ≡ (if used == i then 1 else 0) + count i st.intents)
    × (Dict.get rid st'.reserved ≡ none)
IsSettled i rid used unresolved st st' =
    (count i st'.intents ≡ count i st.intents) × (Dict.get rid st'.reserved ≡ some used)

-- The keys of a `dict` are distinct.
abbrev pub IsDict : Dict Intent → Type 0
IsDict d = distinct (map {B = String} (λ kv. kv.0) d) ≡ true

reserved-persist : (st : IntentStore) → (persist st).reserved ≡ st.reserved
unfolding persist
reserved-persist st = ground arith

module _ (i : Intent) where
  count-append : (xs ys : List Intent) → count i (xs ++ ys) ≡ count i xs + count i ys
  count-append [] ys = omega arith
  count-append (x ∷ xs) ys = omega (arith, count-append xs ys)

  count-insert_intent :
      (x : Intent) (xs : List Intent) → count i (insert_intent x xs) ≡ count i (x ∷ xs)
  unfolding insert_intent
  count-insert_intent x [] = refl
  count-insert_intent x (y ∷ xs) = ground (arith, count-insert_intent x xs)

  count-order_intents : (xs : List Intent) → count i (order_intents xs) ≡ count i xs
  unfolding order_intents
  count-order_intents [] = refl
  count-order_intents (x ∷ xs) =
      omega (arith, count-insert_intent x (order_intents xs), count-order_intents xs)

  count-remove_first :
      (used : Intent) (xs : List Intent)
      → elem used xs ≡ true
      → count i xs ≡ (if used == i then 1 else 0) + count i (remove_first used xs)
  unfolding remove_first
  count-remove_first used [] h = cc
  count-remove_first used (x ∷ xs) h = elim (Bool-cases (x == used)) [
    | inl e ↦ ground (arith, e, ap (λ j. j == i) (intent_same x used e))
    | inr e ↦ ground (arith, e, count-remove_first used xs)
  ]

  count_reserved-put :
      (rid : String) (used : Intent) (d : Dict Intent)
      → Dict.get rid d ≡ none
      → count_reserved i (Dict.put rid used d) ≡ (if used == i then 1 else 0) + count_reserved i d
  unfolding Dict.put Dict.get
  count_reserved-put rid used [] h = refl
  count_reserved-put rid used ((r, j) ∷ d) h = ground (arith, count_reserved-put rid used d)

  remove-absent :
      (rid : String) (d : Dict Intent)
      → elem rid (map {B = String} (λ kv. kv.0) d) ≡ false
      → Dict.remove rid d ≡ d
  unfolding Dict.remove
  remove-absent rid [] h = refl
  remove-absent rid ((r, j) ∷ d) h = ground (arith, remove-absent rid d)

  count_reserved-remove :
      (rid : String) (used : Intent) (d : Dict Intent)
      → IsDict d
      → Dict.get rid d ≡ some used
      → count_reserved i d ≡ (if used == i then 1 else 0) + count_reserved i (Dict.remove rid d)
  unfolding Dict.remove Dict.get
  count_reserved-remove rid used [] w h = cc
  count_reserved-remove rid used ((r, j) ∷ d) w h = elim (Bool-cases (r == rid)) [
    | inl e ↦
        let same : r ≡ rid = (eq_iff r rid).0 e in
        let gone : elem rid (map {B = String} (λ (kv : String × Intent). kv.0) d) ≡ false =
          subst (λ k. elem k (map {B = String} (λ (kv : String × Intent). kv.0) d) ≡ false) same
            (ground arith) in
        ground (arith, e, remove-absent rid d gone)
    | inr e ↦ ground (arith, e, count_reserved-remove rid used d)
  ]

  held-persist : (st : IntentStore) → held i (persist st) ≡ held i st
  unfolding persist
  held-persist st = ground arith

  -- Reserving moves one available intent to the request.
  pub held-reserve :
      (rid : String) (used : Intent) (st : IntentStore)
      → elem used st.intents ≡ true
      → Dict.get rid st.reserved ≡ none
      → held i (reserve rid used st) ≡ held i st
  unfolding reserve
  held-reserve rid used st h n =
      held-persist (record st {
        intents = remove_first used st.intents;
        reserved = Dict.put rid used st.reserved;
      })
      ∙ omega
          (arith, count-remove_first used st.intents h, count_reserved-put rid used st.reserved n)

  held-settle_with :
      (rid : String) (used : Intent) (verdict : Reconciliation) (st : IntentStore)
      → IsDict st.reserved
      → Dict.get rid st.reserved ≡ some used
      → held i (settle_with (settlement verdict) rid used st) + uses verdict used i ≡ held i st
  unfolding settle_with settlement
  held-settle_with rid used confirmed_success st w h = omega (
    arith,
    held-persist (record st { reserved = Dict.remove rid st.reserved }),
    count_reserved-remove rid used st.reserved w h,
  )
  held-settle_with rid used confirmed_failure st w h = omega (
    arith,
    held-persist (record st {
      reserved = Dict.remove rid st.reserved;
      intents = order_intents (st.intents ++ used ∷ []);
    }),
    count_reserved-remove rid used st.reserved w h,
    count-order_intents (st.intents ++ used ∷ []),
    count-append st.intents (used ∷ []),
  )
  held-settle_with rid used unresolved st w h = omega arith

  intents-persist : (st : IntentStore) → count i (persist st).intents ≡ count i st.intents
  unfolding persist
  intents-persist st = ground arith

  settle_with-IsSettled :
      (rid : String) (used : Intent) (verdict : Reconciliation) (st : IntentStore)
      → Dict.get rid st.reserved ≡ some used
      → IsSettled i rid used verdict st (settle_with (settlement verdict) rid used st)
  unfolding settle_with settlement
  settle_with-IsSettled rid used confirmed_success st h = (
    intents-persist (record st { reserved = Dict.remove rid st.reserved }),
    rw (reserved-persist _, get-remove, ==-refl rid),
  )
  settle_with-IsSettled rid used confirmed_failure st h = (
    omega (
      arith,
      intents-persist (record st {
        reserved = Dict.remove rid st.reserved;
        intents = order_intents (st.intents ++ used ∷ []);
      }),
      count-order_intents (st.intents ++ used ∷ []),
      count-append st.intents (used ∷ []),
    ),
    rw (reserved-persist _, get-remove, ==-refl rid),
  )
  settle_with-IsSettled rid used unresolved st h = (refl, h)

  -- Settling the reservation of a request, where no other entry of the reserved ones is of the same
  -- request: after a success the request holds nothing any more and what is available does not change;
  -- after a proven non-effect the request holds nothing any more and its intent is available once more
  -- than before; while the outcome is unresolved the request still holds its intent and what is
  -- available does not change. So how often an intent is available or reserved in all goes down by one
  -- if it is the one that a success used, and does not change otherwise.
  pub held-settle :
      (rid : String) (used : Intent) (verdict : Reconciliation) (st : IntentStore)
      → IsDict st.reserved
      → Dict.get rid st.reserved ≡ some used
      → (held i (settle rid verdict st).1 + uses verdict used i ≡ held i st)
        × IsSettled i rid used verdict st (settle rid verdict st).1
  unfolding settle
  held-settle rid used verdict st w h =
      rw (h, settle)
        (held-settle_with rid used verdict st w h, settle_with-IsSettled rid used verdict st h)

settle-none :
    (rid : String) (verdict : Reconciliation) (st : IntentStore)
    → Dict.get rid st.reserved ≡ none
    → settle rid verdict st ≡ (none, st)
unfolding settle
settle-none rid verdict st h = rw (h, settle)

settle_with-gone :
    (rid : String) (used : Intent) (verdict : Reconciliation) (st : IntentStore)
    → verdict ≢ unresolved
    → Dict.get rid (settle_with (settlement verdict) rid used st).reserved ≡ none
unfolding settle_with settlement
settle_with-gone rid used confirmed_success st h = rw (reserved-persist _, get-remove, ==-refl rid)
settle_with-gone rid used confirmed_failure st h = rw (reserved-persist _, get-remove, ==-refl rid)
settle_with-gone rid used unresolved st h = absurd (h refl)

settle-gone :
    (rid : String) (verdict : Reconciliation) (st : IntentStore)
    → verdict ≢ unresolved
    → Dict.get rid (settle rid verdict st).1.reserved ≡ none
unfolding settle
settle-gone rid verdict st h = elim (Option-cases (Dict.get rid st.reserved)) [
  | inl e ↦ rw (e, settle) e
  | inr (used, e) ↦ rw (e, settle) (settle_with-gone rid used verdict st h)
]

-- A settled request is settled for good: a second settlement, with any verdict, finds nothing
-- reserved and changes nothing.
pub settle_twice :
    (rid : String) (verdict again : Reconciliation) (st : IntentStore)
    → verdict ≢ unresolved
    → settle rid again (settle rid verdict st).1 ≡ (none, (settle rid verdict st).1)
settle_twice rid verdict again st h =
    settle-none rid again (settle rid verdict st).1 (settle-gone rid verdict st h)
