-- ===== src/Intent/Fits.antt =====
-- What an intent that pins its arguments authorizes.
use darm_guard.Prelude.{
  ℕ, ◌+◌, ap, refl, ◌∙◌, Bool-cases, inl, inr, true, false, String, ◌≡◌, List, [], ◌∷◌, any, all,
  All, arith, ◌==◌, string_eq, eq_iff, if◌then◌else◌,
}
use darm_guard.Proposal.{Args}
use darm_guard.Prelude.Text.{starts_with, ends_with, before_suffix}
use Prim.Native.Char.{Char}
use Prim.Native.String.{◌++◌ as concat}
use Prim.Native.String.append
use darm_guard.Intent.{Intent, holds, intent_fits, seen, named}

size : String → ℕ
size String.[] = 0
size (String.◌∷◌ c s) = size s + 1

size-concat : (s t : String) → size (concat s t) ≡ size s + size t
unfolding size
size-concat String.[] t = ap size (append.nil t) ∙ omega arith
size-concat (String.◌∷◌ c s) t = ap size (append.cons c s t) ∙ omega (arith, size-concat s t)

longer : (c : Char) (s t : String) → (String.◌∷◌ c (concat s t) == t) ≡ false
unfolding size
longer c s t = elim (Bool-cases (String.◌∷◌ c (concat s t) == t)) [
  | inr e ↦ e
  | inl e ↦
      absurd (omega (arith, size-concat s t, ap size ((eq_iff (String.◌∷◌ c (concat s t)) t).0 e)))
]

ends_with-suffix : (s : String) → ends_with (concat s "_sha256") "_sha256" ≡ true
unfolding ends_with
ends_with-suffix String.[] = refl
ends_with-suffix (String.◌∷◌ c s) =
    ap (λ x. ends_with x "_sha256") (append.cons c s "_sha256") ∙ ground (arith, ends_with-suffix s)

before_suffix-suffix : (s : String) → before_suffix (concat s "_sha256") "_sha256" ≡ s
unfolding before_suffix
before_suffix-suffix String.[] = refl
before_suffix-suffix (String.◌∷◌ c s) =
    ap (λ x. before_suffix x "_sha256") (append.cons c s "_sha256")
    ∙ rw (longer c s "_sha256", before_suffix) (ap (String.◌∷◌ c) (before_suffix-suffix s))

module _ (sha256 : String → String) where
  all-pins :
      (k v : String) (args : Args)
      → all (λ a. if a.0 == named sha256 k then seen sha256 k a.1 == v else true) args ≡ true
      → All (λ a. a.0 ≡ named sha256 k → seen sha256 k a.1 ≡ v) args
  all-pins k v [] h = tt
  all-pins k v (a ∷ rest) h = (
    λ same. ground (arith, same, eq_iff a.0 (named sha256 k), eq_iff (seen sha256 k a.1) v),
    all-pins k v rest (ground arith),
  )

  -- Some argument bears the name, and every one that does has the value, as `view` shows it.
  abbrev pub Pins : (String → String) → String → String → Args → Type 0
  Pins view name v args =
      (any (λ a. a.0 == name) args ≡ true) × All (λ a. a.0 ≡ name → view a.1 ≡ v) args

  -- The constraint is met: for a name with `_sha256` behind it, the arguments of that name have the
  -- pinned digest, and for any other name they have the pinned value.
  pub record Meets (args : Args) (c : String × String) : Type 0 where
    pub by_value : ends_with c.0 "_sha256" ≡ false → Pins (λ x. x) c.0 c.1 args
    pub by_digest : (name : String) → c.0 ≡ concat name "_sha256" → Pins sha256 name c.1 args

  holds-Meets :
      (args : Args) (k v : String)
      → any (λ a. a.0 == named sha256 k) args ≡ true
      → All (λ a. a.0 ≡ named sha256 k → seen sha256 k a.1 ≡ v) args
      → Meets args (k, v)
  holds-Meets args k v there pinned = record {
    by_value = λ e. (rw e at there, rw e at pinned);
    by_digest = λ name e. (
      rw (e, ends_with-suffix name, before_suffix-suffix name) at there,
      rw (e, ends_with-suffix name, before_suffix-suffix name) at pinned,
    );
  }

  all-Meets :
      (args : Args) (cons : List (String × String))
      → all (holds sha256 args) cons ≡ true
      → All (λ c. starts_with c.0 "if_" ≡ false → Meets args c) cons
  unfolding holds
  all-Meets args [] h = tt
  all-Meets args ((k, v) ∷ rest) h = (
    λ n. holds-Meets args k v (ground (arith, n)) (all-pins k v args (ground (arith, n))),
    all-Meets args rest (ground arith),
  )

  -- An intent that fits names the proposal's tool, and all its constraints other than the `if_`
  -- premises are met: each names an argument that is there, and every argument of that name has the
  -- pinned value, or, for a `_sha256` constraint, a value with the pinned digest.
  pub intent_fits-Meets :
      (i : Intent) (tool : String) (args : Args)
      → intent_fits sha256 i tool args ≡ true
      → (i.0 ≡ tool) × All (λ c. starts_with c.0 "if_" ≡ false → Meets args c) i.1
  unfolding intent_fits
  intent_fits-Meets (t, cons) tool args h =
      (ground (arith, eq_iff t tool), all-Meets args cons (ground arith))
