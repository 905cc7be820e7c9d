-- ===== src/Registry/Split.antt =====
-- What a registry vouches for, line by line, whatever the grouping and the sorting by tool.
use darm_guard.Prelude.{
  Bool, false, not, ◌&&◌, ◌||◌, String, ◌≡◌, refl, inl, inr, none, some, List, [], ◌∷◌, map, any,
  elem, filter, ◌==◌, string_eq, eq_iff, arith, elem-append, elem-filter, Bool-cases, Option-cases,
}
use darm_guard.Prelude.Result.{ok, Result-cases}
use darm_guard.Registry.Patterns.{elem-patterns}
use darm_guard.Registry.{
  Lines, Registry, Policy, tagged_line, add_value, split_line, split_lines, no_lines, is_pattern,
  tag, insert_tool, sort_tools, split_registry, load_registry, tagged_values, tagged_patterns,
  registry_for,
}
use darm_guard.Prelude.Text.{drop_last}
use Prim.Native.String.{◌++◌ as concat}

-- The line names this value for this tool: untagged, for every tool, or behind the tool's name.
abbrev pub vouches : String → String → String → Bool
vouches tool v line = elim (tagged_line line) [
  | none ↦ line == v && not (is_pattern v)
  | some (t, value) ↦ t == tool && value == v && not (is_pattern v)
]

abbrev untags : String → String → Bool
untags v line = elim (tagged_line line) [ none ↦ line == v | some _ ↦ false ]

abbrev tags : String → String → String → Bool
tags tool v line = elim (tagged_line line) [
  | none ↦ false
  | some (t, value) ↦ t == tool && value == v
]

abbrev grouped : String → String → List (String × List String) → Bool
grouped tool v [] = false
grouped tool v ((t, vs) ∷ rest) = t == tool && elem v vs || grouped tool v rest

module _ (tool v : String) where
  grouped-add_value :
      (t x : String) (g : List (String × List String))
      → grouped tool v (add_value t x g) ≡ (t == tool && x == v || grouped tool v g)
  unfolding add_value
  grouped-add_value t x [] = ground arith
  grouped-add_value t x ((u, vs) ∷ rest) = ground (
    arith,
    grouped-add_value t x rest,
    elem-append v vs (x ∷ []),
    eq_iff u t,
    eq_iff u tool,
    eq_iff t tool,
  )

  grouped-insert_tool :
      (x : String × List String) (g : List (String × List String))
      → grouped tool v (insert_tool x g) ≡ grouped tool v (x ∷ g)
  unfolding insert_tool
  grouped-insert_tool x [] = refl
  grouped-insert_tool x (y ∷ rest) = ground (arith, grouped-insert_tool x rest)

  grouped-sort_tools :
      (g : List (String × List String)) → grouped tool v (sort_tools g) ≡ grouped tool v g
  unfolding sort_tools
  grouped-sort_tools [] = refl
  grouped-sort_tools (x ∷ rest) =
      ground (arith, grouped-insert_tool x (sort_tools rest), grouped-sort_tools rest)

  elem-tagged_values :
      (g : List (String × List String))
      → elem v (tagged_values tool (map tag g)) ≡ (not (is_pattern v) && grouped tool v g)
  unfolding tagged_values tag
  elem-tagged_values [] = ground arith
  elem-tagged_values ((t, vs) ∷ rest) = ground (
    arith,
    elem-tagged_values rest,
    elem-append v (filter (λ x. not (is_pattern x)) vs) (tagged_values tool (map tag rest)),
    elem-filter (λ x. not (is_pattern x)) v vs,
  )

  split_line-ok :
      (tools : List String) (line : String) (acc : Lines) {acc' : Lines}
      → split_line tools line acc ≡ ok acc'
      → (elem v acc'.untagged ≡ (elem v acc.untagged || untags v line))
        × (grouped tool v acc'.per_tool ≡ (grouped tool v acc.per_tool || tags tool v line))
  unfolding split_line
  split_line-ok tools line acc h = elim (Option-cases (tagged_line line)) [
    | inl e ↦ ground (arith, e, elem-append v acc.untagged (line ∷ []))
    | inr ((t, x), e) ↦ elim (Bool-cases (elem t tools)) [
      | inl k ↦ ground (arith, e, k, grouped-add_value t x acc.per_tool)
      | inr k ↦ ground (arith, e, k)
    ]
  ]

  split_lines-ok :
      (tools lines : List String) (acc : Lines) {acc' : Lines}
      → split_lines tools lines acc ≡ ok acc'
      → (elem v acc'.untagged ≡ (elem v acc.untagged || any (untags v) lines))
        × (grouped tool v acc'.per_tool ≡ (grouped tool v acc.per_tool || any (tags tool v) lines))
  unfolding split_lines
  split_lines-ok tools [] acc h = ground arith
  split_lines-ok tools (line ∷ rest) acc {acc'} h =
      elim (Result-cases (split_line tools line acc)) [
        | inl (mid, e) ↦
            let (u, g) = split_line-ok tools line acc e in
            let (u', g') = split_lines-ok tools rest mid {acc' = acc'} (ground (arith, e)) in
            ground (arith, u, g, u', g')
        | inr (x, e) ↦ ground (arith, e)
      ]

  any-vouches :
      (lines : List String)
      → (any (untags v) lines && not (is_pattern v)
          || not (is_pattern v) && any (tags tool v) lines)
        ≡ any (vouches tool v) lines
  any-vouches [] = ground arith
  any-vouches (line ∷ rest) = ground (arith, any-vouches rest)

-- The line is a pattern for this prefix: the prefix with a `*` behind it, for this tool or untagged.
abbrev pub names_prefix : String → String → String → Bool
names_prefix tool p line = elim (tagged_line line) [
  | none ↦ line == concat p "*"
  | some (t, value) ↦ t == tool && value == concat p "*"
]

elem-tagged_patterns :
    (tool p : String) (g : List (String × List String))
    → elem p (tagged_patterns tool (map tag g)) ≡ grouped tool (concat p "*") g
unfolding tagged_patterns tag
elem-tagged_patterns tool p [] = refl
elem-tagged_patterns tool p ((t, vs) ∷ rest) = ground (
  arith,
  elem-tagged_patterns tool p rest,
  elem-append p (map drop_last (filter is_pattern vs)) (tagged_patterns tool (map tag rest)),
  elem-patterns p vs,
)

any-names_prefix :
    (tool p : String) (lines : List String)
    → (any (untags (concat p "*")) lines || any (tags tool (concat p "*")) lines)
      ≡ any (names_prefix tool p) lines
any-names_prefix tool p [] = refl
any-names_prefix tool p (line ∷ rest) = ground (arith, any-names_prefix tool p rest)

registry_for-names_prefix :
    (lines : List String) (policy : Policy) (tool p : String) {r : Registry}
    → load_registry lines policy ≡ ok r
    → elem p (registry_for r tool).1 ≡ any (names_prefix tool p) lines
unfolding load_registry registry_for split_registry
registry_for-names_prefix lines policy tool p {r} h =
    elim (Result-cases (split_lines (map (λ t. t.tool) policy.tools) lines no_lines)) [
      | inl (acc, e) ↦
          let (u, g) =
            split_lines-ok tool (concat p "*") (map (λ t. t.tool) policy.tools) lines no_lines e in
          ground (
            arith,
            e,
            h,
            u,
            g,
            any-names_prefix tool p lines,
            elem-tagged_patterns tool p (sort_tools acc.per_tool),
            grouped-sort_tools tool (concat p "*") acc.per_tool,
            elem-patterns p acc.untagged,
            elem-append p (map drop_last (filter is_pattern acc.untagged))
                (tagged_patterns tool (map tag (sort_tools acc.per_tool))),
          )
      | inr (x, e) ↦ ground (arith, e, h)
    ]

registry_for-value :
    (lines : List String) (policy : Policy) (tool v : String) {r : Registry}
    → load_registry lines policy ≡ ok r
    → elem v (registry_for r tool).0 ≡ any (vouches tool v) lines
unfolding load_registry registry_for split_registry
registry_for-value lines policy tool v {r} h =
    elim (Result-cases (split_lines (map (λ t. t.tool) policy.tools) lines no_lines)) [
      | inl (acc, e) ↦
          let (u, g) = split_lines-ok tool v (map (λ t. t.tool) policy.tools) lines no_lines e in
          ground (
            arith,
            e,
            h,
            u,
            g,
            any-vouches tool v lines,
            elem-tagged_values tool v (sort_tools acc.per_tool),
            grouped-sort_tools tool v acc.per_tool,
            elem-filter (λ l. not (is_pattern l)) v acc.untagged,
            elem-append v (filter (λ l. not (is_pattern l)) acc.untagged)
                (tagged_values tool (map tag (sort_tools acc.per_tool))),
          )
      | inr (x, e) ↦ ground (arith, e, h)
    ]

-- For one tool, a loaded registry vouches for a value exactly when one of its lines does, and has a
-- prefix exactly when one of its lines is that prefix with a `*`, each untagged or behind the tool's
-- name: a line for another tool adds nothing, and neither grouping nor sorting loses a line.
pub registry_for-vouches :
    (lines : List String) (policy : Policy) (tool v : String) {r : Registry}
    → load_registry lines policy ≡ ok r
    → (elem v (registry_for r tool).0 ≡ any (vouches tool v) lines)
      × (elem v (registry_for r tool).1 ≡ any (names_prefix tool v) lines)
registry_for-vouches lines policy tool v h =
    (registry_for-value lines policy tool v h, registry_for-names_prefix lines policy tool v h)
