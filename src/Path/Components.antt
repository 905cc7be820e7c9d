-- ===== src/Path/Components.antt =====
-- The two readings of a path prefix: as a string, by the kernel, and by components, by the file
-- system.
use darm_guard.Prelude.{
  Bool, true, false, not, ◌&&◌, ◌||◌, Char, code, String, ◌≡◌, ◌≢◌, refl, sym, ap, none, some, List,
  [], ◌∷◌, all, any, ◌==◌, string_eq, nat_beq, arith, eq_iff, Bool-cases, inl, inr,
}
use darm_guard.Prelude.Text.{starts_with, ends_with, parts, split, init_parts, after, code_eq}
use mathlib.Core.Path.{subst}
use text.Mathlib.TextLemmas.{cons-eq-cons, cons≢nil, nil≢cons}
use darm_guard.Path.{
  slash, logical_root, is_component, path_in_normal_form, workspace_parts, prefix_problem,
  path_kind,
}

-- Components that lie strictly below a list of directories.
abbrev pub below : List String → List String → Bool
below [] [] = false
below [] (y ∷ ys) = true
below (d ∷ ds) [] = false
below (d ∷ ds) (y ∷ ys) = d == y && below ds ys

abbrev slash_char : Char
slash_char = "/"

-- the directories that a prefix ending in `/` names
abbrev pub directories : String → List String
directories p = let (h, t) = parts slash p in init_parts h t

below-nil : (ds : List String) → below ds [] ≡ false
below-nil [] = refl
below-nil (d ∷ ds) = refl

bool_ext : (a b : Bool) → (a ≡ true → b ≡ true) → (b ≡ true → a ≡ true) → a ≡ b
bool_ext true b f g = sym (f refl)
bool_ext false true f g = g refl
bool_ext false false f g = refl

cons_eq :
    (d c : Char) (s t : String)
    → (String.◌∷◌ d s == String.◌∷◌ c t) ≡ (nat_beq (code d) (code c) && s == t)
cons_eq d c s t =
    bool_ext _ _
      (λ h.
        let both = cons-eq-cons.0 ((eq_iff _ _).0 h) in
        rw (both.0, both.1) (ground (arith, eq_iff t t)))
      (λ h.
        let same : d ≡ c = code_eq d c (ground arith) in
        let rest : s ≡ t = (eq_iff s t).0 (ground arith) in (eq_iff _ _).1 (rw (same, rest) refl))

cons-eq-empty : (d : Char) (s : String) → (String.◌∷◌ d s == "") ≡ false
cons-eq-empty d s = bool_ext _ _ (λ h. absurd (cons≢nil ((eq_iff _ _).0 h))) (λ h. cc)

empty-eq-cons : (d : Char) (s : String) → ("" == String.◌∷◌ d s) ≡ false
empty-eq-cons d s = bool_ext _ _ (λ h. absurd (nil≢cons ((eq_iff _ _).0 h))) (λ h. cc)

-- A text that ends with a slash has a part behind its first slash.
ends_with-parts : (p : String) → ends_with p "/" ≡ true → (parts slash p).1 ≢ []
unfolding ends_with parts
ends_with-parts String.[] e = cc
ends_with-parts (String.◌∷◌ d String.[]) e = ground (arith, cons_eq d slash_char "" "")
ends_with-parts (String.◌∷◌ d (String.◌∷◌ c p)) e = ground (
  arith,
  cons_eq d slash_char (String.◌∷◌ c p) "",
  eq_iff (String.◌∷◌ c p) "",
  ends_with-parts (String.◌∷◌ c p),
)

below-empty :
    (d : Char) (p : String)
    → ends_with (String.◌∷◌ d p) "/" ≡ true
    → below (directories (String.◌∷◌ d p)) ("" ∷ []) ≡ false
unfolding parts init_parts
below-empty d p e = ground (
  arith,
  ends_with-parts (String.◌∷◌ d p) e,
  below-nil (directories p),
  cons-eq-empty d (parts slash p).0,
)

-- The prefix `/` itself.
starts_with-root :
    (c : Char) (v : String)
    → starts_with (String.◌∷◌ c v) "/" ≡ below (directories "/") (split slash (String.◌∷◌ c v))
unfolding starts_with split parts init_parts
starts_with-root c v = elim (Bool-cases (nat_beq (code c) slash)) [
  | inl h ↦ rw h refl
  | inr h ↦ rw (h, empty-eq-cons c (parts slash v).0) refl
]

-- One more character in front of the prefix and of the value.
starts_with-step :
    (d c : Char) (p v : String)
    → (parts slash p).1 ≢ []
    → starts_with v p ≡ below (directories p) (split slash v)
    → starts_with (String.◌∷◌ c v) (String.◌∷◌ d p)
      ≡ below (directories (String.◌∷◌ d p)) (split slash (String.◌∷◌ c v))
unfolding starts_with split parts init_parts
starts_with-step d c p v more ih = elim (Bool-cases (nat_beq (code d) slash)) [
  | inl hd ↦ elim (Bool-cases (nat_beq (code c) slash)) [
    | inl hc ↦ rw (hd, hc) (ground arith)
    | inr hc ↦ rw (hd, hc) (ground (arith, empty-eq-cons c (parts slash v).0))
  ]
  | inr hd ↦ elim (Bool-cases (nat_beq (code c) slash)) [
    | inl hc ↦ rw (hd, hc) (ground (arith, cons-eq-empty d (parts slash p).0))
    | inr hc ↦ rw (hd, hc) (ground (arith, cons_eq d c (parts slash p).0 (parts slash v).0))
  ]
]

starts_with-below :
    (p v : String)
    → ends_with p "/" ≡ true
    → starts_with v p ≡ below (directories p) (split slash v)
unfolding ends_with starts_with split parts init_parts
starts_with-below String.[] v e = cc
starts_with-below (String.◌∷◌ d p) String.[] e = sym (below-empty d p e)
starts_with-below (String.◌∷◌ d String.[]) (String.◌∷◌ c v) e =
    let same : d ≡ slash_char = code_eq d slash_char (ground (arith, cons_eq d slash_char "" "")) in
    rw same (starts_with-root c v)
starts_with-below (String.◌∷◌ d (String.◌∷◌ b p)) (String.◌∷◌ c v) e =
    let e' : ends_with (String.◌∷◌ b p) "/" ≡ true =
      ground (arith, cons_eq d slash_char (String.◌∷◌ b p) "", cons-eq-empty b p) in
    starts_with-step d c (String.◌∷◌ b p) v (ends_with-parts (String.◌∷◌ b p) e')
      (starts_with-below (String.◌∷◌ b p) v e')

-- A path prefix that the configuration check accepts admits, as a string, exactly the values that
-- lie strictly below its directories by components.
pub prefix_problem-none :
    (normal_url : String → Bool) (p v : String)
    → prefix_problem normal_url p path_kind ≡ none
    → p ≢ ""
    → starts_with v p ≡ below (directories p) (split slash v)
unfolding prefix_problem
prefix_problem-none normal_url p v ok ne = starts_with-below p v (ground (arith, eq_iff p ""))

-- what stands behind a prefix that ends with a slash has only parts of the whole text
all-after :
    (good : String → Bool) (q s : String)
    → ends_with q "/" ≡ true
    → starts_with s q ≡ true
    → all good (parts slash s).1 ≡ true
    → all good (split slash (after s q)) ≡ true
unfolding ends_with starts_with split parts after
all-after good String.[] s e h a = cc
all-after good (String.◌∷◌ d q) String.[] e h a = cc
all-after good (String.◌∷◌ d String.[]) (String.◌∷◌ c s) e h a =
    let same : d ≡ slash_char = code_eq d slash_char (ground (arith, cons_eq d slash_char "" "")) in
    ground (arith, ap code same)
all-after good (String.◌∷◌ d (String.◌∷◌ b q)) (String.◌∷◌ c s) e h a =
    all-after good (String.◌∷◌ b q) s
      (ground (arith, cons_eq d slash_char (String.◌∷◌ b q) "", cons-eq-empty b q)) (ground arith)
      (ground arith)

any-not-all :
    (xs : List String) → any (λ p. p == "" || p == "." || p == "..") xs ≡ not (all is_component xs)
any-not-all [] = refl
any-not-all (x ∷ xs) = ground (arith, any-not-all xs)

root-ends : ends_with logical_root "/" ≡ true
unfolding ends_with
root-ends = refl

root-not-below : starts_with "/" logical_root ≡ true → ⊥
unfolding starts_with
root-not-below h = cc

normal-parts :
    (v : String)
    → path_in_normal_form v ≡ true
    → starts_with v logical_root ≡ true
    → all is_component (parts slash v).1 ≡ true
unfolding path_in_normal_form starts_with split parts after
normal-parts String.[] n r = cc
normal-parts (String.◌∷◌ c s) n r = elim (Bool-cases (String.◌∷◌ c s == "/")) [
  | inl h ↦
      absurd (root-not-below (subst (λ x. starts_with x logical_root ≡ true) ((eq_iff _ _).0 h) r))
  | inr h ↦ elim (Bool-cases (nat_beq (code c) slash)) [
    | inl hc ↦ rw hc (ground (arith, ap code (code_eq c slash_char hc)))
    | inr hc ↦ ground (arith, hc)
  ]
]

-- A value in normal form below the workspace always splits into components, so `_open_parent`
-- refuses it only for what it finds on disk, and no component can leave its directory.
pub path_in_normal_form-workspace_parts :
    (v : String)
    → path_in_normal_form v ≡ true
    → starts_with v logical_root ≡ true
    → (workspace_parts v ≡ some (split slash (after v logical_root)))
      × (all is_component (split slash (after v logical_root)) ≡ true)
unfolding path_in_normal_form workspace_parts
path_in_normal_form-workspace_parts v n r =
    let good : all is_component (split slash (after v logical_root)) ≡ true =
      all-after is_component logical_root v root-ends r (normal-parts v n r) in
    (ground (arith, any-not-all (split slash (after v logical_root))), good)
