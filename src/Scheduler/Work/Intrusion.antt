-- ===== src/Scheduler/Work/Intrusion.antt =====
-- A thread that finds the semaphore taken.
use ivos.Base.{ℕ, ◌+◌, ◌<◌, ◌≡◌, ◌≢◌, refl, ap, sym, ◌∙◌, subst, false, arith, done, [], ◌∷◌, ◌++◌}
use ivos.Scheduler.Thread.{blocked, Kernel, state_of}
use ivos.Queue.{Heap}
use ivos.Semaphore.{Semaphore}
use ivos.Semaphore.Branches.{sem_wait-Waits}
use ivos.Semaphore.Balance.{NotIn-queue}
use ivos.Scheduler.Work.{
  Program, place, go_on, Given, Activation, Printout, at_wait, at_begin, at_first_sleep, f, wait,
  print_line,
}
use ivos.Scheduler.Work.Totals.{total-ge}
use ivos.Scheduler.Work.Sound.{is_inside, is_blocked, owners}
use ivos.Scheduler.Work.Reaching.{IsGiven, Reached, at_point, place-here, place-other}
use ivos.Scheduler.Work.Invariant.{Reached-IsSound}
use ivos.Scheduler.Work.Exclusion.{Owns, owners-Owns}

-- The current thread has printed BEGINNING as a blocked thread, and thread `i` still has the semaphore.
pub record Intrudes (p : Program) (i : ℕ) (p' : Program) : Type 0 where
  pub printed :
      p'.output
      ≡ p.output
        ++ record {
          id = (p.activations p.kernel.gt_current).id;
          val = (p.activations p.kernel.gt_current).i + 1;
          ends = false;
        }
          ∷ []
  pub inside : place p' p.kernel.gt_current ≡ at_first_sleep
  pub is_blocked : state_of p'.kernel p.kernel.gt_current ≡ blocked
  pub owned : Owns p' i

-- The program when sem_wait has returned.
abbrev behind_wait : Program → Semaphore → Heap → Kernel → Program
behind_wait p s h k = record (go_on at_begin p) { kernel = k; sem = s; heap = h }

module _ (p : Program) (i : ℕ) (s : Semaphore) (h : Heap) (k : Kernel)
    (current : k.gt_current ≡ p.kernel.gt_current)
    (waits : state_of k p.kernel.gt_current ≡ blocked) (differs : i ≢ p.kernel.gt_current)
    (same : k.gt_table i ≡ p.kernel.gt_table i) (owns : Owns p i) where
  begins-Intrudes : Intrudes p i (print_line false at_first_sleep (behind_wait p s h k))
  unfolding print_line
  begins-Intrudes = record {
    printed =
        ap
          (λ (a : Activation).
            p.output
            ++ (let line : Printout = record { id = a.id; val = a.i + 1; ends = false } in line)
              ∷ [])
          behind;
    inside =
        subst
          (λ (c : ℕ).
            place (print_line false at_first_sleep (behind_wait p s h k)) c ≡ at_first_sleep)
          current (place-here _ (behind_wait p s h k));
    is_blocked = waits;
    owned = (
      ap is_inside (
            place-other _ (behind_wait p s h k) i (λ e. differs (e ∙ current))
            ∙ place-other (at_point at_begin p) p i differs)
          ∙ owns.0,
      λ b. owns.1 (ap (λ t. t.state) (sym same) ∙ b),
    );
  }
    where
      behind : (behind_wait p s h k).activations k.gt_current ≡ at_point at_begin p
      behind = ground (arith, current)

-- In a state that the program reaches in which thread `i` has the semaphore: the current thread, before
-- sem_wait, returns from it blocked and goes on to print BEGINNING, if the timer does not come between,
-- while thread `i` has the semaphore still.
pub f-Intrudes :
    {p : Program}
    → Reached p
    → (i : ℕ) → i < 5
    → Owns p i
    → place p p.kernel.gt_current ≡ at_wait
    → (g g' : Given) → IsGiven g p
    → (p' p'' : Program) × (f g at_wait p ≡ done p')
      × (f g' at_begin p' ≡ done p'')
      × Intrudes p i p''
unfolding f wait
f-Intrudes {p} r i l owns before g g' given =
    let k = p.kernel in
    let v = Reached-IsSound r in
    let owned = total-ge 5 i (owners (is_blocked k) (place p)) l in
    let none_left : v.units ≡ 0 = omega (arith, v.balance, owned, owners-Owns p i owns) in
    let (s', h', k', runs, w) =
      sem_wait-Waits g.allocation g.now p.sem p.heap k v.cells
        (rw (v.value, none_left) (omega arith)) given.allocated
        (NotIn-queue p.heap g.allocation.address p.sem.queue v.cells given.unused v.waiting)
        v.waiting in
    let differs : i ≢ k.gt_current =
      λ e. cc (owns.0, ap (λ j. is_inside (place p j)) e, ap is_inside before) in
    (
      behind_wait p s' h' k',
      print_line false at_first_sleep (behind_wait p s' h' k'),
      rw runs refl,
      refl,
      begins-Intrudes p i s' h' k' (ap (λ (r : Kernel). r.gt_current) w.control) w.is_blocked
          differs (w.others i differs) owns,
    )
