-- ===== src/Scheduler/Sleep/Tests.antt =====
-- A sleep that is interrupted once.
use ivos.Base.{pos, ◌≡◌, refl, List, [], ◌∷◌, done}
use ivos.Scheduler.Sleep.{Timespec, Nap, slept, interrupted, gt_uninterruptible_nanosleep}

abbrev asked : Timespec
asked = record { tv_sec = 0; tv_nsec = 50000000 }

abbrev naps : List Nap
naps = interrupted (record { tv_sec = 0; tv_nsec = 20000000 }) ∷ slept ∷ []

returns_zero : gt_uninterruptible_nanosleep naps asked ≡ done (pos 0)
unfolding gt_uninterruptible_nanosleep
returns_zero = refl
