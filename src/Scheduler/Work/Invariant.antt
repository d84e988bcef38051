-- ===== src/Scheduler/Work/Invariant.antt =====
-- The invariant in every state that the program reaches.
use ivos.Base.{ℕ, ◌≡◌, refl, ap, subst, Bool, Outcome, done, ◌>>=◌, Safely, fault, runs_on}
use ivos.Scheduler.Thread.{Kernel}
use ivos.Scheduler.Switch.{Inputs, gt_schedule}
use ivos.Scheduler.Work.{Program, place, gt_alarm_handle}
use ivos.Scheduler.Work.Sound.{Sound, Sound-schedule}
use ivos.Scheduler.Work.Reaching.{Reached, start, works, fires, IsSound}
use ivos.Scheduler.Work.Begun.{start-IsSound}
use ivos.Scheduler.Work.Steps.{f-IsSound}

scheduled :
    (run : Outcome (Kernel × Bool)) (k' : Kernel)
    → ◌≡◌ {A = Outcome Kernel} (run >>= λ r. done r.0) (done k')
    → (b : Bool) × (run ≡ done (k', b))
scheduled (done (k1, b)) k' e = let same : k1 ≡ k' = cc in (b, ap (λ k. done (k, b)) same)
scheduled fault k' e = absurd (cc)
scheduled runs_on k' e = absurd (cc)

alarm-Sound :
    (rounds : ℕ) (x : Inputs) (k' : Kernel) (p : Program)
    → IsSound p
    → gt_alarm_handle rounds x p.kernel ≡ done k'
    → Sound k' p.sem p.heap (place p)
unfolding gt_alarm_handle
alarm-Sound rounds x k' p v e =
    let (b, runs) = scheduled (gt_schedule rounds x p.kernel) k' e in
    Sound-schedule rounds x k' b v runs

-- The invariant holds in every state that the program reaches.
pub Reached-IsSound : {p : Program} → Reached p → IsSound p
Reached-IsSound (start x a s h stacks init) = start-IsSound x a s h stacks init
Reached-IsSound (works {p} r g given e) =
    subst (Safely IsSound) e
      (f-IsSound g (place p p.kernel.gt_current) p (Reached-IsSound r) given refl)
Reached-IsSound (fires {p} r rounds x k' e) = alarm-Sound rounds x k' p (Reached-IsSound r) e
