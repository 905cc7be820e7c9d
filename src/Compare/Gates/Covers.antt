-- ===== src/Compare/Gates/Covers.antt =====
-- What the built-in gates check.
use darm_guard.Prelude.{
  ℕ, ◌+◌, ◌<◌, Bool, true, false, not, ◌&&◌, ◌||◌, ◌≡◌, refl, ◌∙◌, inl, inr, [], ◌∷◌, All, elem,
  lt→ltb, ◌==◌, string_eq, option_eq, if◌then◌else◌, arith, Bool-cases,
}
use darm_guard.Kernel.{KernelDecision}
use darm_guard.Guard.{is_expired, check_transfer, difference, union, observed, check, guard_check}
use darm_guard.Guard.Check.{check_transfer-admitted}
use darm_guard.Guard.Scope.{elem-union, cumulative-admitted}
use darm_guard.Compare.Gates.{
  Scenario, tools_of, guard_of, darmguard_v01, Coverage, admits, inconclusive, argument_aware,
  per_call, misses, covers, Row, cases, self_check, coverage_of, coverage, kernel_adapter,
}

-- The tool-level guard, as the comparison uses it after the first second of 2000, admits a scenario
-- exactly if the credential has not expired and the tool is in the policy or in the credential: one of
-- them is enough, and the arguments and the rules have no part in it.
pub darmguard_v01-admitted :
    (y2000 now : ℕ) (req : Scenario)
    → y2000 + 1000000 < now
    → (darmguard_v01 y2000 now req).admitted ≡ (
        not req.expired
        && (elem req.tool (tools_of req.policy) || elem req.tool req.credential_tools))
unfolding darmguard_v01 guard_check check observed guard_of is_expired
darmguard_v01-admitted y2000 now req late =
    let g = guard_of y2000 req in
    let c = g.session.credential in
    cumulative-admitted (difference (union [] (req.tool ∷ [])) c.tools)
      (check_transfer c (req.tool ∷ []) g.session.policy now)
    ∙ check_transfer-admitted c (req.tool ∷ []) g.session.policy now
    ∙ elim (Bool-cases req.expired) [
      | inl e ↦ rw e (ground (arith, lt→ltb (y2000 + 1000000) now late))
      | inr e ↦ rw e (
          ground (
            arith,
            elem-union req.tool [] (tools_of req.policy),
            elem-union req.tool [] req.credential_tools,
          ))
    ]

when_admitted : (b : Bool) (x y : Coverage) → b ≡ true → (if b then x else y) ≡ x
when_admitted b x y h = rw h refl

when_rejected : (b f : Bool) → (not b && f) ≡ true → (if b then misses else covers) ≡ covers
when_rejected true f h = cc
when_rejected false f h = refl

abbrev pub IsKernelRow : Row → Type 0
IsKernelRow r =
    r.is_kernel_ok ≡ true
    → r.gate ≡ (
        if r.name == "control (every check passes)"
        then admits
        else if r.expected == "admit"
        then argument_aware
        else covers)

-- Taken as the gate under test, the kernel is found to cover every dimension in which its self-check
-- holds, to admit the control, and to be aware of arguments.
pub coverage-kernel_adapter :
    (kernel : Scenario → KernelDecision) → All IsKernelRow (coverage (kernel_adapter kernel) kernel)
unfolding coverage cases self_check coverage_of
coverage-kernel_adapter kernel = (
  when_admitted _ admits inconclusive,
  (
    when_rejected _ _,
    (
      when_rejected _ _,
      (
        when_rejected _ _,
        (
          when_rejected _ _,
          (when_rejected _ _, (when_rejected _ _, (when_admitted _ argument_aware per_call, tt))),
        ),
      ),
    ),
  ),
)
