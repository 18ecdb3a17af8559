-- ===== src/Workload/Slot/Backoff.antt =====
-- The wait after failed exchanges (workloadtoken/client.go, backoff).
use dev_health_go.Base.{ℕ, suc, zero, ◌+◌, ◌-◌, ◌*◌, ◌^◌, ◌≤◌, ◌≡◌, sym, ap, ◌∙◌, min, arith}
use native.Mathlib.Nat.{pow-succ', mul_assoc}
use dev_health_go.Workload.Slot.{Settings, double_to, backoff}

doubled : (wait n : ℕ) → wait * 2 ^ suc n ≡ wait * 2 * 2 ^ n
doubled wait n = ap (λ x. wait * x) (pow-succ' 2 n) ∙ sym (mul_assoc wait 2 (2 ^ n))

grown : (n wait : ℕ) → wait ≤ wait * 2 ^ n
grown zero wait = omega arith
grown (suc n) wait = omega (arith, grown n (wait * 2), doubled wait n)

-- Once the wait has reached the ceiling the loop leaves it.
double_to-eq :
    (n ceiling wait : ℕ) → min (double_to n ceiling wait) ceiling ≡ min (wait * 2 ^ n) ceiling
unfolding double_to
double_to-eq zero ceiling wait = ground arith
double_to-eq (suc n) ceiling wait =
    ground (arith, double_to-eq n ceiling (wait * 2), doubled wait n, grown (suc n) wait)

-- The wait after the n-th failure in a row is the floor doubled n - 1 times, and the ceiling at most.
pub backoff-eq :
    (c : Settings) (failures : ℕ)
    → backoff c (failures + 1) ≡ min (c.backoff_floor * 2 ^ failures) c.backoff_ceiling
unfolding backoff
backoff-eq c failures =
    let one_less : failures + 1 - 1 ≡ failures = omega arith in
    rw one_less (double_to-eq failures c.backoff_ceiling c.backoff_floor)
