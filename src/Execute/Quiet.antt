-- ===== src/Execute/Quiet.antt =====
-- `_execute`: the tools that only read.
use darm_guard.Prelude.{
  Bool, true, false, String, ◌≡◌, ◌≢◌, refl, ◌∙◌, inl, inr, Option, none, some, List, [], ◌==◌,
  string_eq, arith, eq_iff, Bool-cases, Option-cases,
}
use darm_guard.Prelude.Dict
use darm_guard.Prelude.Dict.{Dict}
use darm_guard.Prelude.Result.{Result, ok, err}
use darm_guard.Registry.{Invocation}
use darm_guard.Reconcile.{args_dict}
use darm_guard.Fetch.{Fetched}
use darm_guard.Host.{Host, Opened, slot, missing_directory, unopened, refused, followed, or_empty}
use darm_guard.Effect.{
  Node, regular, special, Disk, Outcome, Errno, not_found, exists, not_regular, no_workspace,
  not_implemented, not_text, act, left, turn, Kind, no_file, regular_file, special_file, leaf_kind,
  kind_of,
}
use darm_guard.Effect.Replace.{calm}
use darm_guard.Execute.{
  Executed, Orders, is_link_kind, link_at, read_node, read_file, listed, list_dir, dispatch, caught,
  execute_opened, execute,
}

-- the tool has no effect on the workspace
abbrev pub IsReader : String → Type 0
IsReader tool = (tool ≢ "write_file") × (tool ≢ "rename_file") × (tool ≢ "delete_file")

other_tool : (tool name : String) → tool ≢ name → tool == name ≡ false
other_tool tool name n = ground (arith, eq_iff tool name)

caught-world : (host : Host) (o : Outcome Executed) → (caught host o).1 ≡ o.1
unfolding caught
caught-world host (ok x, w) = refl
caught-world host (err not_implemented, w) = refl
caught-world host (err not_text, w) = refl
caught-world host (err no_workspace, w) = refl
caught-world host (err not_found, w) = refl
caught-world host (err exists, w) = refl
caught-world host (err not_regular, w) = refl

module _ (host : Host) where
  read_file-still : (name : String) (d : Disk) → (read_file host name (calm d)).1 ≡ calm d
  unfolding read_file read_node turn act left
  read_file-still name d = go (Dict.get name d)
    where
      go : (n : Option Node) → (read_node host name n (calm d)).1 ≡ calm d
      go none = refl
      go (some special) = refl
      go (some (regular c a)) = elim (Bool-cases (host.has_other_names name d)) [
        | inl e ↦ rw e refl
        | inr e ↦ rw e (elim (Option-cases (host.decode_text c)) [
          | inl t ↦ rw t refl
          | inr (text, t) ↦ rw t refl
        ])
      ]

  list_dir-still : (name : String) (d : Disk) → (list_dir host name (calm d)).1 ≡ calm d
  unfolding list_dir listed turn act left
  list_dir-still name d = go (host.listing name d)
    where
      go : (r : Result Errno (List String)) → (listed host r (calm d)).1 ≡ calm d
      go (ok l) = refl
      go (err e) = refl

  dispatch-still :
      (orders : Orders) (tool : String) (args : Dict String) (name : String) (is_link : Bool)
      (d : Disk)
      → IsReader tool
      → (dispatch host orders tool args name is_link (calm d)).1 ≡ calm d
  unfolding dispatch
  dispatch-still orders tool args name true d n = refl
  dispatch-still orders tool args name false d (w, r, x) = elim (Bool-cases (tool == "read_file")) [
    | inl e ↦ rw (e, dispatch) (read_file-still name d)
    | inr e ↦
        rw
          (
            e,
            other_tool tool "write_file" w,
            other_tool tool "rename_file" r,
            other_tool tool "delete_file" x,
            dispatch,
          )
          (elim (Bool-cases (tool == "list_dir")) [
            | inl l ↦ rw l (list_dir-still name d)
            | inr l ↦ rw l refl
          ])
  ]

  linked-still :
      (orders : Orders) (tool : String) (args : Dict String) (name : String) (k : Kind) (d : Disk)
      → IsReader tool
      → (followed (dispatch host orders tool args name) (is_link_kind host name (k, calm d))).1
        ≡ calm d
  unfolding is_link_kind
  linked-still orders tool args name no_file d r = dispatch-still orders tool args name false d r
  linked-still orders tool args name regular_file d r =
      dispatch-still orders tool args name false d r
  linked-still orders tool args name special_file d r =
      dispatch-still orders tool args name (host.is_link name d) d r

  opened-still :
      (orders : Orders) (tool : String) (args : Dict String) (o : Opened) (d : Disk)
      → IsReader tool
      → (execute_opened host orders tool args o (calm d)).1 ≡ calm d
  unfolding execute_opened link_at leaf_kind turn act left
  opened-still orders tool args missing_directory d r = refl
  opened-still orders tool args unopened d r = refl
  opened-still orders tool args (refused why) d r = refl
  opened-still orders tool args (slot name) d r =
      caught-world host _ ∙ linked-still orders tool args name (kind_of (Dict.get name d)) d r

  -- While no other process acts, a tool other than write_file, rename_file and delete_file, known or
  -- not, leaves the workspace as it is, whatever the request.
  pub execute-quiet :
      (fetch : String → Fetched) (orders : Orders) (inv : Invocation) (d : Disk)
      → IsReader inv.tool
      → (execute host fetch orders inv (calm d)).1 ≡ calm d
  unfolding execute
  execute-quiet fetch orders inv d r = elim (Bool-cases (inv.tool == "http_get")) [
    | inl e ↦ rw (e, execute) refl
    | inr e ↦
        rw (e, execute)
          (opened-still orders inv.tool (args_dict inv.args [])
            (host.opened (or_empty (Dict.get "path" (args_dict inv.args [])))) d r)
  ]
