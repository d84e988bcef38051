-- ===== src/Scheduler/Stats/Tests.antt =====
-- A run on three samples.
use ivos.Base.{◌≡◌, refl, [], ◌∷◌}
use ivos.Scheduler.Demo.{time}
use ivos.Scheduler.Stats.{no_stats, record_periods, record_period}

smallest : (record_periods no_stats (time 0 7 ∷ time 0 3 ∷ time 1 0 ∷ [])).min_time ≡ time 0 3
unfolding record_periods record_period
smallest = refl
