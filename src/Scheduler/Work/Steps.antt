-- ===== src/Scheduler/Work/Steps.antt =====
-- What a statement of `f` leaves of the invariant.
use ivos.Base.{
  ◌≡◌, ◌≢◌, refl, sym, ap, ◌∙◌, true, false, arith, Safely, fault, Safely-after, ◌+◌, List, [], ◌∷◌,
}
use ivos.Scheduler.Thread.{blocked, state_of}
use ivos.Scheduler.Policy.Slots.{eq-is_state}
use ivos.Scheduler.Sleep.{Timespec, Nap, slept, failed, interrupted, gt_uninterruptible_nanosleep}
use ivos.Scheduler.Work.{
  Point, in_main, at_start, at_wait, at_begin, at_first_sleep, at_end, at_second_sleep, at_post,
  Activation, Program, place, set_current, go_on, Given, sleep, wait, post, f, begin_work,
  print_line,
}
use ivos.Scheduler.Work.Sound.{is_inside, may_be_blocked, is_blocked, Sound, Sound-move}
use ivos.Scheduler.Work.Waits.{not-is_blocked, sem_wait-Sound}
use ivos.Scheduler.Work.Posts.{sem_post-Sound}
use ivos.Scheduler.Work.Reaching.{IsGiven, IsSound, at_point, printed, place-here, place-other}

module _ (p : Program) (v : IsSound p) (from : Point) (e : place p p.kernel.gt_current ≡ from) where
  -- A statement that only leads on.
  leads_on :
      (a : Activation)
      → is_inside a.point ≡ is_inside from
      → (is_blocked p.kernel p.kernel.gt_current ≡ true → may_be_blocked a.point ≡ true)
      → Sound p.kernel p.sem p.heap (place (set_current a p))
  leads_on a same may =
      Sound-move (place (set_current a p)) v (place-other a p)
        (ap is_inside (place-here a p) ∙ same ∙ ap is_inside (sym e))
        (λ b. ap may_be_blocked (place-here a p) ∙ may b)

  -- The same where no blocked thread can be.
  goes_free :
      (a : Activation)
      → is_inside a.point ≡ is_inside from
      → may_be_blocked from ≡ false
      → Sound p.kernel p.sem p.heap (place (set_current a p))
  goes_free a same free = leads_on a same (λ b. absurd (cc (not-is_blocked from v e free, b)))

  -- The end of the first sleep.
  wakes_up :
      state_of p.kernel p.kernel.gt_current ≢ blocked
      → from ≡ at_first_sleep
      → Sound p.kernel p.sem p.heap (place (go_on at_end p))
  wakes_up awake first =
      leads_on (record (p.activations p.kernel.gt_current) { point = at_end })
        (sym (ap is_inside first)) (λ b. absurd (awake (eq-is_state _ blocked b)))

nanosleep-not_fault :
    (naps : List Nap) (req : Timespec) → gt_uninterruptible_nanosleep naps req ≢ fault
unfolding gt_uninterruptible_nanosleep
nanosleep-not_fault [] req e = cc
nanosleep-not_fault (slept ∷ naps) req e = cc
nanosleep-not_fault (failed ∷ naps) req e = cc
nanosleep-not_fault (interrupted remaining ∷ naps) req e =
    ground (arith, nanosleep-not_fault naps remaining)

sleep-IsSound :
    (naps : List Nap) (next : Point) (p : Program)
    → Sound p.kernel p.sem p.heap (place (go_on next p))
    → Safely IsSound (sleep naps next p)
unfolding sleep
sleep-IsSound naps next p v =
    let req : Timespec = record { tv_sec = 0; tv_nsec = 50000000 } in
    Safely-after IsSound (gt_uninterruptible_nanosleep naps req) (go_on next p)
      (nanosleep-not_fault naps req) v

pub f-IsSound :
    (g : Given) (at : Point) (p : Program)
    → IsSound p
    → IsGiven g p
    → place p p.kernel.gt_current ≡ at
    → Safely IsSound (f g at p)
unfolding f begin_work print_line wait post
f-IsSound g in_main p v given e = tt
f-IsSound g at_start p v given e =
    goes_free p v at_start e (record { point = at_wait; id = p.x + 1; i = 0 }) refl refl
f-IsSound g at_wait p v given e =
    let (s', h', k', runs, v') =
      sem_wait-Sound (place (go_on at_begin p)) v e (place-here (at_point at_begin p) p)
        (place-other (at_point at_begin p) p) g.allocation g.now given.allocated given.unused in
    rw runs v'
f-IsSound g at_begin p v given e =
    leads_on p v at_begin e (printed at_first_sleep p) refl (λ b. refl)
f-IsSound g at_first_sleep p v given e =
    sleep-IsSound g.naps at_end p (wakes_up p v at_first_sleep e (given.timely e) refl)
f-IsSound g at_end p v given e = goes_free p v at_end e (printed at_second_sleep p) refl refl
f-IsSound g at_second_sleep p v given e =
    sleep-IsSound g.naps at_post p (goes_free p v at_second_sleep e (at_point at_post p) refl refl)
f-IsSound g at_post p v given e =
    let (s', h', k', runs, v') =
      sem_post-Sound (place (go_on at_wait p)) v e (place-here (at_point at_wait p) p)
        (place-other (at_point at_wait p) p) g.now in
    rw runs v'
