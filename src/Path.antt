-- ===== src/Path.antt =====
-- darm_guard/broker.py: the normal form of paths, and the prefixes that a policy or a registry may
-- use for paths.
pub mod Components
pub mod Tests
use darm_guard.Prelude.{
  ℕ, Bool, true, false, not, ◌&&◌, ◌||◌, String, Option, none, some, List, [], ◌∷◌, all, any, ◌==◌,
  string_eq, if◌then◌else◌,
}
use darm_guard.Prelude.Text.{starts_with, ends_with, split, after}

abbrev pub slash : ℕ
slash = b'/'

abbrev pub logical_root : String
logical_root = "/workspace/"

-- `c not in ("", ".", "..")`
abbrev pub is_component : String → Bool
is_component c = not (c == "" || c == "." || c == "..")

-- `path_in_normal_form`
unfoldable pub path_in_normal_form : String → Bool
unfolding starts_with split after
path_in_normal_form value =
    if value == "/"
    then true
    else if not (starts_with value "/")
    then false
    else all is_component (split slash (after value "/"))

-- the part of `_open_parent` before it opens a directory: the components below the workspace
unfoldable pub workspace_parts : String → Option (List String)
unfolding starts_with split after
workspace_parts path =
    if not (starts_with path logical_root)
    then none
    else let comps = split slash (after path logical_root) in
      if any (λ p. p == "" || p == "." || p == "..") comps then none else some comps

-- what a prefix is a prefix of
pub data PrefixKind : Type 0 where
  path_kind url_kind : PrefixKind

-- `_prefix_problem`: `none` for the empty reason. `normal_url` is that of http_get.py.
unfoldable pub prefix_problem : (String → Bool) → String → PrefixKind → Option String
unfolding ends_with
prefix_problem normal_url p url_kind =
    if p == ""
    then none
    else if not (ends_with p "/") || not (normal_url p)
    then some "URL prefix does not end at a component boundary"
    else none
prefix_problem normal_url p path_kind =
    if p == ""
    then none
    else if not (ends_with p "/")
    then some "path prefix does not end at a component boundary"
    else none
