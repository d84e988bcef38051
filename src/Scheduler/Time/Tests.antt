-- ===== src/Scheduler/Time/Tests.antt =====
-- The theorems at times.
use ivos.Base.{◌≡◌, refl, ◌-ℤ◌, ◌+ℤ◌}
use ivos.Scheduler.Demo.{time}
use ivos.Scheduler.Time.{timeval_subtract, timeval_add}

borrows : timeval_subtract (time 5 100) (time 3 200) ≡ time 1 999900
unfolding timeval_subtract ◌-ℤ◌ ◌+ℤ◌
borrows = refl

carries : timeval_add (time 5 600000) (time 3 400000) ≡ time 9 0
unfolding timeval_add ◌-ℤ◌ ◌+ℤ◌
carries = refl
