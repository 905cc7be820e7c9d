-- ===== src/Registry/Patterns.antt =====
-- A pattern line of the registry: a prefix with a `*` behind it.
use darm_guard.Prelude.{
  Bool, true, false, ap, ==-refl, ◌&&◌, String, ◌≡◌, refl, sym, ◌∙◌, inl, inr, List, [], ◌∷◌, map,
  elem, filter, ◌==◌, string_eq, eq_iff, arith, Bool-cases,
}
use darm_guard.Registry.{is_pattern}
use darm_guard.Prelude.Text.{ends_with, drop_last}
use Prim.Native.Char.{Char}
use Prim.Native.String.{◌++◌ as concat}
use Prim.Native.String.append

is_pattern-star : (p : String) → is_pattern (concat p "*") ≡ true
unfolding ends_with
is_pattern-star String.[] = refl
is_pattern-star (String.◌∷◌ c s) =
    ap is_pattern (append.cons c s "*") ∙ ground (arith, is_pattern-star s)

is_nil : String → Bool
is_nil String.[] = true
is_nil (String.◌∷◌ c s) = false

tail : String → String
tail String.[] = String.[]
tail (String.◌∷◌ c s) = s

nonempty : (c : Char) (s : String) → (String.◌∷◌ c s == String.[]) ≡ false
unfolding is_nil
nonempty c s = elim (Bool-cases (String.◌∷◌ c s == String.[])) [
  | inr e ↦ e
  | inl e ↦ let no : false ≡ true = ap is_nil ((eq_iff (String.◌∷◌ c s) String.[]).0 e) in cc
]

concat-is_empty : (p : String) (c : Char) → (concat p (String.◌∷◌ c String.[]) == String.[]) ≡ false
concat-is_empty String.[] c = rw (append.nil (String.◌∷◌ c String.[])) (nonempty c String.[])
concat-is_empty (String.◌∷◌ d s) c = rw (append.cons d s (String.◌∷◌ c String.[])) (nonempty d _)

drop_last-star : (p : String) → drop_last (concat p "*") ≡ p
unfolding drop_last
drop_last-star String.[] = refl
drop_last-star (String.◌∷◌ c s) =
    ap drop_last (append.cons c s "*")
    ∙ rw (concat-is_empty s "*", drop_last) (ap (String.◌∷◌ c) (drop_last-star s))

is_pattern-drop_last : (x : String) → is_pattern x ≡ true → x ≡ concat (drop_last x) "*"
unfolding ends_with drop_last tail
is_pattern-drop_last String.[] h = cc
is_pattern-drop_last (String.◌∷◌ c s) h = elim (Bool-cases (s == String.[])) [
  | inl e ↦
      let alone : s ≡ String.[] = (eq_iff s String.[]).0 e in
      let star : (String.◌∷◌ c s == "*") ≡ true = ground (arith, h, ap is_pattern alone) in
      rw e ((eq_iff (String.◌∷◌ c s) "*").0 star ∙ sym (append.nil "*"))
  | inr e ↦ rw e (elim (Bool-cases (String.◌∷◌ c s == "*")) [
    | inl k ↦
        let same : s ≡ String.[] = ap tail ((eq_iff (String.◌∷◌ c s) "*").0 k) in
        let yes = (eq_iff s String.[]).1 same in cc
    | inr k ↦
        ap (String.◌∷◌ c) (is_pattern-drop_last s (rw k at h))
        ∙ sym (append.cons c (drop_last s) "*")
  ])
]

names_pattern : (p x : String) → (is_pattern x && drop_last x == p) ≡ (x == concat p "*")
names_pattern p x = elim (Bool-cases (x == concat p "*")) [
  | inl e ↦
      let same = (eq_iff x (concat p "*")).0 e in
      rw (same, is_pattern-star p, drop_last-star p, ==-refl p, ==-refl (concat p "*")) refl
  | inr e ↦ elim (Bool-cases (is_pattern x)) [
    | inr k ↦ ground (arith, e, k)
    | inl k ↦ ground (
      arith,
      e,
      k,
      eq_iff (drop_last x) p,
      eq_iff x (concat p "*"),
      ap (λ q. concat q "*") {x = drop_last x} {y = p},
      is_pattern-drop_last x k,
    )
  ]
]

pub elem-patterns :
    (p : String) (vs : List String)
    → elem p (map drop_last (filter is_pattern vs)) ≡ elem (concat p "*") vs
elem-patterns p [] = refl
elem-patterns p (x ∷ vs) = ground (arith, elem-patterns p vs, names_pattern p x)
