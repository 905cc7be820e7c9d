-- ===== src/Intent/Store/Revoke.antt =====
-- What a revocation takes away, and what an edit of the intents file by someone else does.
use darm_guard.Prelude.{
  Bool, true, false, not, ◌&&◌, ◌||◌, String, ◌≡◌, ◌≢◌, refl, sym, ap, ◌∙◌, inl, inr, Option, some,
  List, [], ◌∷◌, filter, any, ◌==◌, ◌!=◌, string_eq, option_eq, pair_eq, list_eq, option_beq_iff,
  arith, Bool-cases,
}
use darm_guard.Prelude.Dict
use darm_guard.Intent.{Intent}
use darm_guard.Intent.Store.{
  IntentStore, Revocation, nothing, all_of, identical, unreadable, revoke, freeze, refresh,
}

-- the revocation takes this intent away
abbrev pub hits : Intent → Revocation → Bool
hits i nothing = false
hits i (all_of tool) = i.0 == tool
hits i (identical r) = i == r
hits i unreadable = true

filter-filter :
    (p q : Intent → Bool) (is : List Intent) → filter q (filter p is) ≡ filter (λ i. p i && q i) is
filter-filter p q [] = refl
filter-filter p q (i ∷ is) = ground (arith, filter-filter p q is)

filter-cong :
    (p q : Intent → Bool) (is : List Intent)
    → ((i : Intent) → p i ≡ q i)
    → filter p is ≡ filter q is
filter-cong p q [] h = refl
filter-cong p q (i ∷ is) h = ground (arith, h i, filter-cong p q is h)

not-or : (a b : Bool) → (not a && not b) ≡ not (a || b)
not-or a b = ground arith

filter-none : (is : List Intent) → filter (λ i. false) is ≡ []
filter-none [] = refl
filter-none (i ∷ is) = filter-none is

filter-all : (is : List Intent) → filter (λ i. true) is ≡ is
filter-all [] = refl
filter-all (i ∷ is) = ap (◌∷◌ i) (filter-all is)

-- Exactly the intents that no revocation hits are left, in their order, and a line that cannot be
-- read leaves none.
pub revoke_filters :
    (rs : List Revocation) (is : List Intent)
    → revoke rs is ≡ filter (λ i. not (any (hits i) rs)) is
unfolding revoke
revoke_filters [] is = sym (filter-all is)
revoke_filters (nothing ∷ rest) is = revoke_filters rest is
revoke_filters (all_of tool ∷ rest) is =
    revoke_filters rest (filter (λ i. i.0 != tool) is)
    ∙ filter-filter (λ i. i.0 != tool) (λ i. not (any (hits i) rest)) is
    ∙ filter-cong _ _ is (λ i. not-or (i.0 == tool) (any (hits i) rest))
revoke_filters (identical r ∷ rest) is =
    revoke_filters rest (filter (λ i. i != r) is)
    ∙ filter-filter (λ i. i != r) (λ i. not (any (hits i) rest)) is
    ∙ filter-cong _ _ is (λ i. not-or (i == r) (any (hits i) rest))
revoke_filters (unreadable ∷ rest) is = sym (filter-none is)

freeze-frozen : (st : IntentStore) → st.frozen ≡ true → freeze st ≡ st
unfolding freeze
freeze-frozen st h = ground arith

freeze-edited :
    (st : IntentStore) (w : String)
    → st.has_path ≡ true
    → st.written ≡ some w
    → st.file ≢ some w
    → st.frozen ≡ false
    → freeze st ≡ record st { frozen = true }
unfolding freeze
freeze-edited st w p q r f = ground (arith, option_beq_iff st.file (some w))

-- An intents file that is not what the broker last wrote freezes the store at a refresh, and neither
-- the intents, the reservations nor the file change.
pub refresh_edited :
    (revocations : Option (List String)) (st : IntentStore) (w : String)
    → st.has_path ≡ true
    → st.written ≡ some w
    → st.file ≢ some w
    → ((refresh revocations st).0 ≡ true)
      × ((refresh revocations st).1.frozen ≡ true)
      × ((refresh revocations st).1.intents ≡ st.intents)
      × ((refresh revocations st).1.reserved ≡ st.reserved)
      × ((refresh revocations st).1.file ≡ st.file)
unfolding refresh freeze
refresh_edited revocations st w p q r = elim (Bool-cases st.frozen) [
  | inl f ↦ rw (freeze-frozen st f, refresh) (rw f (refl, refl, refl, refl, refl))
  | inr f ↦ rw (freeze-edited st w p q r f, refresh) (refl, refl, refl, refl, refl)
]
