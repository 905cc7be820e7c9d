-- ===== src/Effect/Cas.antt =====
-- darm_guard/broker.py, `_cas_replace` and `_cas_delete`.
use darm_guard.Prelude.{
  Bool, true, false, String, Option, none, some, ◌==◌, ◌!=◌, string_eq, if◌then◌else◌,
}
use darm_guard.Prelude.Result.{ok, err}
use darm_guard.Intent.{Observed, absent, present, unavailable}
use darm_guard.Effect.{
  World, exists, not_found, not_implemented, Outcome, Kind, regular_file, rename_noreplace,
  rename_exchange, replace, unlink, leaf_kind, digest_at, leaf_state,
}

-- What the two functions return instead of `None`.
pub data Conflict : Type 0 where
  appeared changed changed_fallback disappeared no_target : Conflict
  displaced : String → Conflict

-- `none` for `None`: the effect was applied
abbrev pub Cas : Type 0
Cas = Outcome (Option Conflict)

unfoldable pub same_state : Observed → Observed → Bool
same_state absent absent = true
same_state (present d) (present e) = d == e
same_state (unavailable x) (unavailable y) = x == y
same_state _ _ = false

-- the result of the last call, once it succeeds
unfoldable pub finish : Option Conflict → Outcome (Unit {0}) → Cas
finish c (ok u, w) = (ok c, w)
finish c (err e, w) = (err e, w)

module _ (sha256 : String → String) where
  -- the `except NotImplementedError` branch
  unfoldable pub replace_checked : String → String → Observed → Outcome Observed → Cas
  unfolding same_state finish replace unlink
  replace_checked tmp leaf expected (err e, w) = (err e, w)
  replace_checked tmp leaf expected (ok current, w) =
      if same_state current expected
      then finish none (replace tmp leaf w)
      else finish (some changed_fallback) (unlink tmp w)

  unfoldable pub replace_fallback : String → String → Observed → World → Cas
  unfolding replace_checked leaf_state
  replace_fallback tmp leaf expected w =
      replace_checked tmp leaf expected (leaf_state sha256 leaf w)

  unfoldable pub replace_absent : String → String → Outcome (Unit {0}) → Cas
  unfolding finish unlink replace_fallback
  replace_absent tmp leaf (ok u, w) = (ok none, w)
  replace_absent tmp leaf (err exists, w) = finish (some appeared) (unlink tmp w)
  replace_absent tmp leaf (err not_implemented, w) = replace_fallback tmp leaf absent w
  replace_absent tmp leaf (err e, w) = (err e, w)

  -- after the second exchange: the displaced file is back
  unfoldable pub undone : String → Outcome (Unit {0}) → Cas
  unfolding finish unlink
  undone tmp (ok u, w) = finish (some changed) (unlink tmp w)
  undone tmp (err e, w) = (err e, w)

  -- what was displaced is inspected, and put back if it is not the recorded state
  unfoldable pub inspect_displaced : String → String → String → Outcome String → Cas
  unfolding undone finish unlink rename_exchange
  inspect_displaced tmp leaf d (err e, w) = (err e, w)
  inspect_displaced tmp leaf d (ok found, w) =
      if found != d
      then undone tmp (rename_exchange true tmp leaf w)
      else finish none (unlink tmp w)

  unfoldable pub replace_present : String → String → String → Outcome (Unit {0}) → Cas
  unfolding inspect_displaced digest_at replace_fallback
  replace_present tmp leaf d (ok u, w) = inspect_displaced tmp leaf d (digest_at sha256 tmp w)
  replace_present tmp leaf d (err not_implemented, w) = replace_fallback tmp leaf (present d) w
  replace_present tmp leaf d (err e, w) = (err e, w)

  -- `_cas_replace`, with the recorded state and whether `renameat2` is there
  unfoldable pub cas_replace : Bool → String → String → Option Observed → World → Cas
  unfolding replace_absent replace_present finish replace
  cas_replace has tmp leaf none w = finish none (replace tmp leaf w)
  cas_replace has tmp leaf (some (unavailable x)) w = finish none (replace tmp leaf w)
  cas_replace has tmp leaf (some absent) w =
      replace_absent tmp leaf (rename_noreplace has tmp leaf w)
  cas_replace has tmp leaf (some (present d)) w =
      replace_present tmp leaf d (rename_exchange has tmp leaf w)

  unfoldable pub delete_checked : String → Observed → Outcome Observed → Cas
  unfolding same_state finish unlink
  delete_checked leaf expected (err e, w) = (err e, w)
  delete_checked leaf expected (ok current, w) =
      if same_state current expected
      then finish none (unlink leaf w)
      else (ok (some changed_fallback), w)

  -- after the displaced file was to be renamed back
  unfoldable pub put_back : String → Outcome (Unit {0}) → Cas
  put_back tmp (ok u, w) = (ok (some changed), w)
  put_back tmp (err exists, w) = (ok (some (displaced tmp)), w)
  put_back tmp (err e, w) = (err e, w)

  unfoldable pub delete_recorded : String → String → String → Outcome String → Cas
  unfolding put_back finish unlink rename_noreplace
  delete_recorded tmp leaf d (err e, w) = (err e, w)
  delete_recorded tmp leaf d (ok found, w) =
      if found != d
      then put_back tmp (rename_noreplace true tmp leaf w)
      else finish none (unlink tmp w)

  unfoldable pub delete_inspected : String → String → String → Kind × World → Cas
  unfolding put_back delete_recorded rename_noreplace digest_at
  delete_inspected tmp leaf d (regular_file, w) =
      delete_recorded tmp leaf d (digest_at sha256 tmp w)
  delete_inspected tmp leaf d (k, w) = put_back tmp (rename_noreplace true tmp leaf w)

  unfoldable pub delete_claimed : String → String → String → Outcome (Unit {0}) → Cas
  unfolding delete_inspected delete_checked leaf_kind leaf_state
  delete_claimed tmp leaf d (ok u, w) = delete_inspected tmp leaf d (leaf_kind tmp w)
  delete_claimed tmp leaf d (err not_found, w) = (ok (some disappeared), w)
  delete_claimed tmp leaf d (err not_implemented, w) =
      delete_checked leaf (present d) (leaf_state sha256 leaf w)
  delete_claimed tmp leaf d (err e, w) = (err e, w)

  -- `_cas_delete`, with the private name that it makes up
  unfoldable pub cas_delete : Bool → String → String → Option Observed → World → Cas
  unfolding delete_claimed rename_noreplace
  cas_delete has tmp leaf (some (present d)) w =
      delete_claimed tmp leaf d (rename_noreplace has leaf tmp w)
  cas_delete has tmp leaf _ w = (ok (some no_target), w)
