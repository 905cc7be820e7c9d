-- ===== src/Path/Tests.antt =====
-- Path normal form on inputs of the source's tests.
use darm_guard.Prelude.{◌≡◌, refl, true, false, some, [], ◌∷◌, all}
use darm_guard.Prelude.Text.{starts_with, split, after}
use darm_guard.Path.Components.{path_in_normal_form-workspace_parts}
use darm_guard.Path.{path_in_normal_form, workspace_parts, is_component, logical_root, slash}

normal : path_in_normal_form "/workspace/a.txt" ≡ true
unfolding path_in_normal_form
normal = refl

dots : path_in_normal_form "/workspace/../etc" ≡ false
unfolding path_in_normal_form
dots = refl

walk : workspace_parts "/workspace/d/a.txt" ≡ some ("d" ∷ "a.txt" ∷ [])
unfolding workspace_parts
walk = refl

path_in_normal_form-workspace_parts_example :
    (workspace_parts "/workspace/d/a.txt"
      ≡ some (split slash (after "/workspace/d/a.txt" logical_root)))
    × (all is_component (split slash (after "/workspace/d/a.txt" logical_root)) ≡ true)
unfolding path_in_normal_form starts_with
path_in_normal_form-workspace_parts_example =
    path_in_normal_form-workspace_parts "/workspace/d/a.txt" refl refl
