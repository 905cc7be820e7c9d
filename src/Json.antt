-- ===== src/Json.antt =====
-- JSON values as Python's `json.loads` returns them: what a proposal is read from.
use darm_guard.Prelude.{
  ℕ, Bool, String, Option, none, some, List, [], ◌∷◌, ◌==◌, string_eq, if◌then◌else◌,
}

mutual
  pub data Json : Type 0 where
    null : Json
    bool : Bool → Json
    num : ℕ → Json
    str : String → Json
    arr : Items → Json
    obj : Fields → Json

  pub data Items : Type 0 where
    nil : Items
    cons : Json → Items → Items

  pub data Fields : Type 0 where
    end : Fields
    field : String → Json → Fields → Fields

-- the keys of an object
unfoldable pub keys : Fields → List String
keys end = []
keys (field k v fs) = k ∷ keys fs

-- `obj.get(k)`
unfoldable pub get : String → Fields → Option Json
get k end = none
get k (field j v fs) = if j == k then some v else get k fs

-- `{k: v for k, v in obj.items() if k != name}`
unfoldable pub without : String → Fields → Fields
without name end = end
without name (field k v fs) =
    let rest = without name fs in if k == name then rest else field k v rest
