-- ===== src/Compare.antt =====
-- darm_guard/verify.py, `Verdict`, `Divergence`, `Report` and `verify`: a gate is compared with the
-- kernel on scenarios. The generator is the list of the scenarios that it draws.
pub mod Totals
pub mod Gates
pub mod Tests
use darm_guard.Prelude.{
  ℕ, ◌+◌, suc, Bool, true, false, not, ◌&&◌, String, Option, none, some, List, [], ◌∷◌, ◌++◌, any,
  ◌==◌, string_eq, if◌then◌else◌,
}
use darm_guard.Prelude.Dict
use darm_guard.Prelude.Dict.{Dict}
use darm_guard.Prelude.Result.{Result, ok, err}
use darm_guard.Kernel.{KernelDecision}

-- what a gate answers; `supported` is false where it cannot express the scenario
pub record Verdict : Type 0 where
  pub admitted : Bool
  pub reason : Option String
  pub supported : Bool

pub data DivergenceKind : Type 0 where
  false_admit false_reject : DivergenceKind

pub record Divergence {ℓ} (R : Type ℓ) : Type ℓ where
  pub index : ℕ
  pub kind : DivergenceKind
  pub kernel : String
  pub gate : String
  pub request : R

-- the counts of a report; `unsupported` is a `Counter`
pub record Report {ℓ} (R : Type ℓ) : Type ℓ where
  pub agree : ℕ
  pub unsupported : Dict ℕ
  pub divergences : List (Divergence R)

-- `s or default`
abbrev pub text_or : String → Option String → String
text_or default none = default
text_or default (some s) = if s == "" then default else s

-- `counter[key] += 1`
unfoldable pub count_up : String → Dict ℕ → Dict ℕ
unfolding Dict.get Dict.put
count_up key counter = elim (Dict.get key counter) [
  | none ↦ Dict.put key 1 counter
  | some n ↦ Dict.put key (n + 1) counter
]

abbrev pub bool_beq : Bool → Bool → Bool
bool_beq true b = b
bool_beq false b = not b

abbrev pub has_text : Option String → Bool
has_text none = false
has_text (some s) = not (s == "")

-- the error of the kernel that ended the comparison, with the scenario's number
pub record KernelError : Type 0 where
  pub scenario : ℕ
  pub error : Option String

abbrev pub is_false_admit : DivergenceKind → Bool
is_false_admit false_admit = true
is_false_admit false_reject = false

module _ {ℓ} {R : Type ℓ} (gate : R → Verdict) (kernel : R → KernelDecision) where
  abbrev pub diverging : ℕ → R → Divergence R
  diverging i req = record {
    index = i;
    kind = if (gate req).admitted then false_admit else false_reject;
    kernel = if (kernel req).admitted then "admit" else text_or "reject" (kernel req).failure;
    gate = if (gate req).admitted then "admit" else text_or "reject" (gate req).reason;
    request = req;
  }

  -- one scenario that the gate can express
  unfoldable pub compare_one : ℕ → R → Report R → Report R
  compare_one i req rep =
      if bool_beq (gate req).admitted (kernel req).admitted
      then record rep { agree = rep.agree + 1 }
      else record rep { divergences = rep.divergences ++ diverging i req ∷ [] }

  -- a scenario that the gate cannot express is counted by its reason
  unfoldable pub step : ℕ → R → Report R → Report R
  unfolding compare_one count_up
  step i req rep =
      if not (gate req).supported
      then record rep {
        unsupported = count_up (text_or "unspecified" (gate req).reason) rep.unsupported;
      }
      else compare_one i req rep

  -- the `RuntimeError`
  unfoldable pub failing : ℕ → R → Option KernelError
  failing i req =
      if (gate req).supported && has_text (kernel req).error
      then some (record { scenario = i; error = (kernel req).error })
      else none

  -- the loop of `verify`
  unfoldable pub verify_from : ℕ → List R → Report R → Option KernelError × Report R
  unfolding step failing
  verify_from i [] rep = (none, rep)
  verify_from i (req ∷ rest) rep = elim (failing i req) [
    | some e ↦ (some e, rep)
    | none ↦ verify_from (suc i) rest (step i req rep)
  ]

  -- `verify`
  unfoldable pub verify : List R → Option KernelError × Report R
  unfolding verify_from
  verify reqs = verify_from 0 reqs (record { agree = 0; unsupported = []; divergences = [] })

  -- the exit status of `--fail-on-false-admit`: whether some divergence is a false admit
  abbrev pub has_false_admit : Report R → Bool
  has_false_admit rep = any (λ d. is_false_admit d.kind) rep.divergences
