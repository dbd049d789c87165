-- ===== src/Print/Laws.antt =====
-- What the printed lines depend on.
use khorjin.Prelude.{ℕ, ◌≡◌, refl}
use khorjin.Types.{Configuration}
use khorjin.Print.Stream.{print_status, print_trigger, print_pmu_values}

-- The lines about a PMU, the one about the reason of a trigger included, are the same whatever the
-- trigger reason is.
pub print_pmu_values-trigger_reason :
    {F : Type 0} (i reason : ℕ) (c : Configuration F)
    → print_pmu_values i (record c { trigger_reason = reason }) ≡ print_pmu_values i c
unfolding print_pmu_values print_status print_trigger
print_pmu_values-trigger_reason i reason c = refl
