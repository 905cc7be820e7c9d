-- ===== src/Registry/Tests.antt =====
-- A registry with a tagged line, and values it vouches for.
use darm_guard.Prelude.{string_eq, Bool, true, String, ◌≡◌, refl, [], ◌∷◌, any, elem, if◌then◌else◌}
use darm_guard.Prelude.Text.{ends_with, drop_last}
use darm_guard.Registry.{
  Policy, authoritative, derived, untrusted, registry_for, load_registry, assign_prov,
  check_prefixes, Registry,
}
use darm_guard.Registry.Split.{vouches, names_prefix, registry_for-vouches}
use darm_guard.Registry.Prefixes.{admits, assign_prov-derived}

abbrev policy : Policy
policy = record {
  tools =
      (record {
        tool = "read_file";
        rules =
            (record { key = "path"; allowed_values = []; allowed_prefixes = "/workspace/" ∷ [] })
            ∷ [];
      })
      ∷ [];
}

abbrev registry : Registry
registry = record {
  registry = "/workspace/a" ∷ [];
  patterns = "/workspace/d/" ∷ [];
  tool_registry =
      (record { tool = "read_file"; vouched = "/workspace/b" ∷ []; patterns = [] }) ∷ [];
}

registry_for-vouches_example :
    (elem "/workspace/b" (registry_for registry "read_file").0
      ≡ any
          (vouches "read_file" "/workspace/b")
          ("/workspace/a" ∷ "read_file /workspace/b" ∷ "/workspace/d/*" ∷ []))
    × (elem "/workspace/b" (registry_for registry "read_file").1
        ≡ any
            (names_prefix "read_file" "/workspace/b")
            ("/workspace/a" ∷ "read_file /workspace/b" ∷ "/workspace/d/*" ∷ []))
unfolding load_registry ends_with drop_last
registry_for-vouches_example =
    registry_for-vouches ("/workspace/a" ∷ "read_file /workspace/b" ∷ "/workspace/d/*" ∷ []) policy
      "read_file" "/workspace/b" {r = registry} refl

assign_prov-derived_example :
    assign_prov ("/workspace/a" ∷ []) "/workspace/d/x" ("/workspace/d/" ∷ []) ≡ (
      if elem {A = String} "/workspace/d/x" ("/workspace/a" ∷ [])
      then authoritative
      else if any (admits "/workspace/d/x") ("/workspace/d/" ∷ [])
      then derived
      else untrusted)
unfolding check_prefixes
assign_prov-derived_example =
    assign_prov-derived (λ u. true) policy ("/workspace/a" ∷ []) ("/workspace/d/" ∷ [])
      "/workspace/d/x" refl

other_tool : elem "/workspace/b" (registry_for registry "write_file").0 ≡ Bool.false
unfolding registry_for
other_tool = refl
