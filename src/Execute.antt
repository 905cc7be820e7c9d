-- ===== src/Execute.antt =====
-- darm_guard/broker.py, `_execute`: the effect of an admitted invocation.
pub mod Quiet
pub mod Tests
use Prim.Native.String.{count}
use darm_guard.Prelude.{
  ℕ, Bool, true, false, not, ◌&&◌, ◌||◌, String, Option, none, some, List, [], ◌==◌, string_eq,
  option_eq, if◌then◌else◌,
}
use darm_guard.Prelude.Dict
use darm_guard.Prelude.Dict.{Dict}
use darm_guard.Prelude.Result.{Result, ok, err}
use darm_guard.Registry.{Invocation}
use darm_guard.Intent.{Observed}
use darm_guard.Reconcile.{args_dict}
use darm_guard.Fetch.{Fetched}
use darm_guard.Host.{Host, Opened, slot, unopened, Io, ◌>>=◌, ◌>>◌, give, safe, or_empty}
use darm_guard.Effect.{
  Node, regular, special, Disk, World, Outcome, Errno, not_found, exists, not_regular, no_workspace,
  not_implemented, not_text, turn, at, Kind, no_file, regular_file, special_file, leaf_kind,
}
use darm_guard.Effect.Cas.{Conflict, appeared, cas_replace, cas_delete}
use darm_guard.Effect.Move.{Refusal, rename_protocol}

-- the `error` of a result
pub data Problem : Type 0 where
  not_opened destination_not_opened : Opened → Problem
  is_symlink destination_is_symlink multiple_names same_names no_implementation : Problem
  not_written not_deleted : Conflict → Problem
  not_renamed : Refusal → Problem
  os_error : Errno → Problem
  refused_read : Problem

-- The dictionary that `_execute` returns; `raised` is an exception that leaves it. A write says how
-- much it wrote, and, like a rename, whether it attested it.
pub data Executed : Type 0 where
  failed : Problem → Executed
  content : String → Option String → Executed
  written : ℕ → Bool → Executed
  renamed : Bool → Executed
  deleted : Executed
  entries : List String → Executed
  fetched : Fetched → Executed
  raised : Executed

-- What `_handle` passes on: the recorded state before, the attestation of a digest, the private name
-- of a rename and the source's attestation. `fresh` is the private name that a write or a delete makes
-- up.
pub record Orders : Type 0 where
  pub expected : Option Observed
  pub attest : Option (String → Result (Unit {0}) String)
  pub private : Option String
  pub old_att : Option String
  pub fresh : String → String

abbrev pub Effecting : Type 0
Effecting = Io Executed

digest_to_attest : Option Observed → String
digest_to_attest (some (Observed.present d)) = d
digest_to_attest _ = ""

attestation_for :
    Option (String → Result (Unit {0}) String) → String → Option (Result (Unit {0}) String)
attestation_for none d = none
attestation_for (some sign) d = some (sign d)

abbrev pub is_some : {A : Type 0} → Option A → Bool
is_some none = false
is_some (some x) = true

create_at : String → Node → Option Node → World → Outcome (Unit {0})
unfolding Dict.put
create_at name n none w = (ok tt, record w { disk = Dict.put name n w.disk })
create_at name n (some m) w = (err exists, w)

-- `os.open` with `O_CREAT | O_EXCL`, and what is written through that handle, which no one else has
unfoldable pub create : String → Node → Io (Unit {0})
unfolding turn create_at
create name n w = create_at name n (at name (turn w)) (turn w)

abbrev pub attested_bytes : Bool → Option (Result (Unit {0}) String) → Option String
attested_bytes true (some (ok bytes)) = some bytes
attested_bytes _ _ = none

module _ (host : Host) where
  -- `_leaf_kind(fd, leaf) == stat.S_IFLNK`
  unfoldable pub is_link_kind : String → Kind × World → Outcome Bool
  is_link_kind name (special_file, w) = (ok (host.is_link name w.disk), w)
  is_link_kind name (regular_file, w) = (ok false, w)
  is_link_kind name (no_file, w) = (ok false, w)

  unfoldable pub link_at : String → Io Bool
  unfolding is_link_kind leaf_kind
  link_at name w = is_link_kind name (leaf_kind name w)

  unfoldable pub read_node : String → Option Node → World → Outcome Executed
  read_node name none w = (err not_found, w)
  read_node name (some special) w = (err not_regular, w)
  read_node name (some (regular c a)) w =
      if host.has_other_names name w.disk
      then (ok (failed multiple_names), w)
      else elim (host.decode_text c) [
        | some text ↦ (ok (content text a), w)
        | none ↦ (err not_text, w)
      ]

  unfoldable pub read_file : String → Effecting
  unfolding turn read_node
  read_file name w = read_node name (at name (turn w)) (turn w)

  -- `st_nlink > 1`, where there is a file
  unfoldable pub many_names : String → World → Bool × World
  unfolding turn
  many_names name w = elim (at name (turn w)) [
    | none ↦ (false, turn w)
    | some n ↦ (host.has_other_names name (turn w).disk, turn w)
  ]

  unfoldable pub write_result : ℕ → Bool → Option Conflict → Effecting
  write_result n attested none = give (written n attested)
  write_result n attested (some c) = give (failed (not_written c))

  unfoldable pub write_new : Orders → String → String → Effecting
  unfolding create cas_replace write_result attestation_for
  write_new orders name text = do
    let bytes =
        attested_bytes host.keeps_attributes (attestation_for orders.attest (host.sha256 text))
    create (orders.fresh name) (regular text bytes)
    conflict ← cas_replace host.sha256 host.has_renameat2 (orders.fresh name) name orders.expected
    write_result (count text) (is_some bytes) conflict

  unfoldable pub write_checked : Orders → String → String → Bool → Effecting
  unfolding write_new
  write_checked orders name text true = give (failed multiple_names)
  write_checked orders name text false = write_new orders name text

  unfoldable pub write_file : Orders → String → String → Effecting
  unfolding write_checked many_names
  write_file orders name text = do
    many ← safe (many_names name)
    write_checked orders name text many

  unfoldable pub rename_result : Bool → Option Refusal → Effecting
  rename_result attested none = give (renamed attested)
  rename_result attested (some r) = give (failed (not_renamed r))

  unfoldable pub rename_opened : Orders → String → String → Bool → Effecting
  unfolding rename_result rename_protocol attestation_for digest_to_attest
  rename_opened orders source target true = give (failed destination_is_symlink)
  rename_opened orders source target false = do
    refusal ←
        rename_protocol host.sha256 host.has_renameat2 source target orders.expected
          (attestation_for orders.attest (digest_to_attest orders.expected))
          (elim orders.private [ none ↦ "" | some leaf ↦ host.beside source leaf ]) orders.old_att
    rename_result (is_some orders.attest) refusal

  unfoldable pub rename_to : Orders → String → Opened → Effecting
  unfolding rename_opened link_at
  rename_to orders source (slot target) = do
    is_link ← link_at target
    rename_opened orders source target is_link
  rename_to orders source unopened = λ w. (err no_workspace, w)
  rename_to orders source o = give (failed (destination_not_opened o))

  unfoldable pub rename_file : Orders → Dict String → String → Effecting
  unfolding rename_to Dict.get
  rename_file orders args source =
      if Dict.get "destination" args == Dict.get "path" args
      then give (failed same_names)
      else rename_to orders source (host.opened (or_empty (Dict.get "destination" args)))

  unfoldable pub delete_result : Option Conflict → Effecting
  delete_result none = give deleted
  delete_result (some c) = give (failed (not_deleted c))

  unfoldable pub delete_file : Orders → String → Effecting
  unfolding cas_delete delete_result
  delete_file orders name = do
    conflict ← cas_delete host.sha256 host.has_renameat2 (orders.fresh name) name orders.expected
    delete_result conflict

  unfoldable pub listed : Result Errno (List String) → World → Outcome Executed
  listed (ok names) w = (ok (entries names), w)
  listed (err e) w = (err e, w)

  unfoldable pub list_dir : String → Effecting
  unfolding turn listed
  list_dir name w = listed (host.listing name (turn w).disk) (turn w)

  -- behind the test for a link
  unfoldable pub dispatch : Orders → String → Dict String → String → Bool → Effecting
  unfolding read_file write_file rename_file delete_file list_dir Dict.get
  dispatch orders tool args name true = give (failed is_symlink)
  dispatch orders tool args name false =
      if tool == "read_file"
      then read_file name
      else if tool == "write_file"
      then write_file orders name (or_empty (Dict.get "content" args))
      else if tool == "rename_file"
      then rename_file orders args name
      else if tool == "delete_file"
      then delete_file orders name
      else if tool == "list_dir"
      then list_dir name
      else give (failed no_implementation)

  -- `except OSError`
  unfoldable pub caught : Outcome Executed → Executed × World
  caught (ok x, w) = (x, w)
  caught (err not_implemented, w) = (raised, w)
  caught (err not_text, w) = (raised, w)
  caught (err e, w) = (failed (os_error e), w)

  unfoldable pub execute_opened : Orders → String → Dict String → Opened → World → Executed × World
  unfolding caught dispatch link_at
  execute_opened orders tool args (slot name) w =
      caught ((do is_link ← link_at name; dispatch orders tool args name is_link) w)
  execute_opened orders tool args unopened w = (raised, w)
  execute_opened orders tool args o w = (failed (not_opened o), w)

  -- `_execute`; `fetch` is `_execute_http` with the broker's configuration
  unfoldable pub execute : (String → Fetched) → Orders → Invocation → World → Executed × World
  unfolding execute_opened args_dict Dict.get
  execute fetch orders inv w =
      let args = args_dict inv.args [] in
      if inv.tool == "http_get"
      then (fetched (fetch (or_empty (Dict.get "url" args))), w)
      else execute_opened orders inv.tool args (host.opened (or_empty (Dict.get "path" args))) w
