-- ===== src/Intent/Order.antt =====
-- The load order of intents: broadest first, stable, and nothing lost or made up.
use darm_guard.Prelude.{
  ℕ, ◌≤◌, ◌≡◌, refl, ◌∙◌, inl, inr, List, [], ◌∷◌, filter, All, leb, ◌==◌, nat_eq, arith,
  Bool-cases,
}
use darm_guard.Intent.{Intent, breadth, insert_intent, order_intents}

-- Each intent has at most as many constraints as any later one.
abbrev pub IsOrdered : List Intent → Type 0
IsOrdered [] = Unit {0}
IsOrdered (x ∷ rest) = All (λ y. breadth x ≤ breadth y) rest × IsOrdered rest

All-trans :
    (x y : Intent) (rest : List Intent)
    → breadth x ≤ breadth y
    → All (λ z. breadth y ≤ breadth z) rest
    → All (λ z. breadth x ≤ breadth z) rest
All-trans x y [] h a = tt
All-trans x y (z ∷ rest) h a = (omega (arith, a.0), All-trans x y rest h a.1)

All-insert_intent :
    (w x : Intent) (rest : List Intent)
    → breadth w ≤ breadth x
    → All (λ z. breadth w ≤ breadth z) rest
    → All (λ z. breadth w ≤ breadth z) (insert_intent x rest)
unfolding insert_intent
All-insert_intent w x [] h a = (h, tt)
All-insert_intent w x (y ∷ rest) h a = elim (Bool-cases (leb (breadth x) (breadth y))) [
  | inl b ↦ rw b (h, a)
  | inr b ↦ rw b (a.0, All-insert_intent w x rest h a.1)
]

insert_intent-IsOrdered :
    (x : Intent) (rest : List Intent) → IsOrdered rest → IsOrdered (insert_intent x rest)
unfolding insert_intent
insert_intent-IsOrdered x [] o = (tt, tt)
insert_intent-IsOrdered x (y ∷ rest) o = elim (Bool-cases (leb (breadth x) (breadth y))) [
  | inl b ↦
      let le : breadth x ≤ breadth y = ground arith in rw b ((le, All-trans x y rest le o.0), o)
  | inr b ↦ rw b (All-insert_intent y x rest (ground arith) o.0, insert_intent-IsOrdered x rest o.1)
]

order_intents-IsOrdered : (is : List Intent) → IsOrdered (order_intents is)
unfolding order_intents
order_intents-IsOrdered [] = tt
order_intents-IsOrdered (x ∷ rest) =
    insert_intent-IsOrdered x (order_intents rest) (order_intents-IsOrdered rest)

abbrev pub of_breadth : ℕ → List Intent → List Intent
of_breadth n = filter (λ i. breadth i == n)

of_breadth-insert_intent :
    (n : ℕ) (x : Intent) (rest : List Intent)
    → of_breadth n (insert_intent x rest) ≡ of_breadth n (x ∷ rest)
unfolding insert_intent
of_breadth-insert_intent n x [] = refl
of_breadth-insert_intent n x (y ∷ rest) = elim (Bool-cases (leb (breadth x) (breadth y))) [
  | inl b ↦ rw b refl
  | inr b ↦ rw b (ground (arith, of_breadth-insert_intent n x rest))
]

of_breadth-order_intents :
    (n : ℕ) (is : List Intent) → of_breadth n (order_intents is) ≡ of_breadth n is
unfolding order_intents
of_breadth-order_intents n [] = refl
of_breadth-order_intents n (x ∷ rest) =
    of_breadth-insert_intent n x (order_intents rest)
    ∙ ground (arith, of_breadth-order_intents n rest)

-- The order in which intents are tried: the broadest first, and those that are equally broad in the
-- order in which the principal listed them, none lost and none added.
pub order_intents_sorts :
    (is : List Intent)
    → IsOrdered (order_intents is) × ((n : ℕ) → of_breadth n (order_intents is) ≡ of_breadth n is)
order_intents_sorts is = (order_intents-IsOrdered is, λ n. of_breadth-order_intents n is)
