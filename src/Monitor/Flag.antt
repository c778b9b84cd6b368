-- ===== src/Monitor/Flag.antt =====
-- `Monitor< bool >`: the operators that monitor.h specialises. `none` is a failed assertion.
use lunchbox.Prelude.{arith, ◌≡◌, Bool, not, Option, none, some, if◌then◌else◌}
use lunchbox.Monitor.{Monitor, change}

unfoldable pub increment_flag : Monitor Bool → Option (Monitor Bool)
unfolding change
increment_flag m = if m.value then none else some (change not m)

unfoldable pub decrement_flag : Monitor Bool → Option (Monitor Bool)
unfolding change
decrement_flag m = if m.value then none else some (change not m)

unfoldable pub or_flag : Bool → Monitor Bool → Monitor Bool
unfolding change
or_flag v m = if v then change (λ _. v) m else m

-- A flag that `++` has set cannot be decremented: the assertion of `--` asks for a flag that is not set.
pub decrement_flag-increment_flag :
    (m m' : Monitor Bool) → increment_flag m ≡ some m' → decrement_flag m' ≡ none
unfolding increment_flag decrement_flag
decrement_flag-increment_flag m m' e = ground arith
