-- ===== src/Scheduler/Account/Tests.antt =====
-- The theorems at a thread that is preempted and resumed.
use ivos.Base.{pos, refl, [], ◌∷◌, ◌-ℤ◌, ◌+ℤ◌, scale}
use ivos.Scheduler.Demo.{time, thread}
use ivos.Scheduler.Time.{microseconds}
use ivos.Scheduler.Thread.{Gt, running, ready, blocked}
use ivos.Scheduler.Account.Totals.{IsAccounted, change_states, change_states-IsAccounted}

abbrev fresh : Gt
fresh = thread ready 3 0

change_states-IsAccounted_example :
    IsAccounted (pos 0) (
      change_states fresh ((time 0 40, running) ∷ (time 0 540, ready) ∷ (time 0 900, blocked) ∷ []))
unfolding microseconds ◌+ℤ◌ ◌-ℤ◌ scale
change_states-IsAccounted_example =
    change_states-IsAccounted (pos 0)
      ((time 0 40, running) ∷ (time 0 540, ready) ∷ (time 0 900, blocked) ∷ []) fresh (λ e. cc)
      ((λ e. cc), ((λ e. cc), ((λ e. cc), tt))) refl
