-- ===== src/Compare/Tests.antt =====
-- A gate that admits everything, against a kernel that admits nothing that has expired.
use darm_guard.Prelude.{
  true, not, ◌&&◌, ◌||◌, ◌≡◌, refl, none, some, List, [], ◌∷◌, any, elem, length, string_eq,
  if◌then◌else◌, arith,
}
use darm_guard.Kernel.{KernelDecision}
use darm_guard.Compare.{KernelError, has_false_admit, verify}
use darm_guard.Compare.Totals.{counted, is_unsafe, verify-counted, verify-has_false_admit}
use darm_guard.Compare.Gates.{Scenario, allow_all, base, tools_of, darmguard_v01}
use darm_guard.Compare.Gates.Covers.{darmguard_v01-admitted}

abbrev kernel : Scenario → KernelDecision
kernel req = record {
  admitted = not req.expired;
  failure = if req.expired then some "temporal" else none;
  error = none;
  invocation = none;
}

abbrev scenarios : List Scenario
scenarios = base ∷ (record base { expired = true }) ∷ []

verify-counted_example :
    ((verify allow_all kernel scenarios).0 ≡ none
      → counted allow_all kernel (verify allow_all kernel scenarios).1 ≡ length scenarios)
    × ((e : KernelError)
        → (verify allow_all kernel scenarios).0 ≡ some e
        → counted allow_all kernel (verify allow_all kernel scenarios).1 ≡ e.scenario)
verify-counted_example = verify-counted allow_all kernel scenarios

verify-has_false_admit_example :
    has_false_admit allow_all kernel (verify allow_all kernel scenarios).1
    ≡ any (is_unsafe allow_all kernel) scenarios
unfolding verify
verify-has_false_admit_example = verify-has_false_admit allow_all kernel scenarios refl

found : has_false_admit allow_all kernel (verify allow_all kernel scenarios).1 ≡ true
unfolding verify
found = refl

darmguard_v01-admitted_example : (darmguard_v01 0 2000000 base).admitted ≡ (
    not base.expired
    && (elem base.tool (tools_of base.policy) || elem base.tool base.credential_tools))
darmguard_v01-admitted_example = darmguard_v01-admitted 0 2000000 base (omega arith)
