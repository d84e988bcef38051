-- ===== src/Scheduler/Work/Begun.antt =====
-- The invariant when `main` has started its threads.
use ivos.Base.{
  ℕ, ◌<◌, ◌≡◌, ◌≢◌, refl, sym, ap, ◌∙◌, subst, pos, true, false, inl, inr, some, ℤ, arith, [],
}
use ivos.Scheduler.Thread.{running, ready, Algorithm, Kernel, boot, state_of}
use ivos.Scheduler.Policy.{set_scheduling_algorithm}
use ivos.Scheduler.Create.{Request, gt_init, fill_slot}
use ivos.Scheduler.Create.Result.{gt_create-cases}
use ivos.Scheduler.Main.{Setting, create, start_threads}
use ivos.Scheduler.Main.Threads.{HasStacks, IsTable, start_threads-IsTable}
use ivos.Queue.{Heap, null, queue_init}
use ivos.Semaphore.{Semaphore, sem_init}
use ivos.Scheduler.Work.Totals.{each_slot}
use ivos.Scheduler.Work.Sound.{is_blocked, Sound}
use ivos.Scheduler.Work.Reaching.{first_activation, with_threads, IsSound}

current-create :
    (priority : ℕ) (r : Request) (k : Kernel) → (create priority r k).gt_current ≡ k.gt_current
unfolding fill_slot
current-create priority r k = elim (gt_create-cases (record r { priority = pos priority }) k) [
  | inl (same, _) ↦ ap (λ (y : Kernel × ℤ). y.0.gt_current) same
  | inr (p, first, has, filled) ↦ ap (λ (y : Kernel × ℤ). y.0.gt_current) filled
]

current-start_threads :
    (x : Setting) (a : Algorithm)
    → (start_threads x (set_scheduling_algorithm a boot)).gt_current ≡ 0
unfolding start_threads gt_init set_scheduling_algorithm
current-start_threads x a =
    current-create 6 x.fourth _
    ∙ current-create 10 x.third _
    ∙ current-create 0 x.second _
    ∙ current-create 3 x.first _

-- At first no thread is blocked, and only the initial one is running.
begun_state :
    (k : Kernel)
    → IsTable k
    → (j : ℕ) → j < 5
    → (is_blocked k j ≡ false) × (j ≢ 0 → state_of k j ≢ running)
begun_state k t =
    each_slot (λ j. (is_blocked k j ≡ false) × (j ≢ 0 → state_of k j ≢ running))
      (of_running t.initial.0) (of_ready 1 t.first.0) (of_ready 2 t.second.0) (of_ready 3 t.third.0)
      (of_ready 4 t.fourth.0)
  where
    of_running :
        state_of k 0 ≡ running
        → (is_blocked k 0 ≡ false) × (◌≢◌ {A = ℕ} 0 0 → state_of k 0 ≢ running)
    of_running e = (rw e refl, λ ne. absurd (ne refl))

    of_ready :
        (j : ℕ) → state_of k j ≡ ready → (is_blocked k j ≡ false) × (j ≢ 0 → state_of k j ≢ running)
    of_ready j e = (rw e refl, λ ne r. cc)

begun-Sound :
    (k : Kernel) (h : Heap)
    → k.gt_current ≡ 0
    → IsTable k
    → Sound k
        (record { value = pos 1; queue = record { head = null; tail = null } })
        h
        (λ j. (first_activation j).point)
begun-Sound k h at_zero t = record {
  only = record {
    within = rw at_zero (omega arith);
    others = λ j l ne. (begun_state k t j l).1 (λ e. ne (e ∙ sym at_zero));
  };
  units = 1;
  cells = [];
  value = refl;
  waiting = (refl, refl);
  slots = tt;
  once = λ j l. rw ((begun_state k t j l).0) refl;
  stands = λ j l b. absurd (cc ((begun_state k t j l).0, b));
  balance = refl;
  idle = λ l. refl;
}

pub start-IsSound :
    (x : Setting) (a : Algorithm) (s : Semaphore) (h : Heap)
    → HasStacks x
    → sem_init true (pos 1) ≡ some s
    → IsSound (with_threads (start_threads x (set_scheduling_algorithm a boot)) s h)
unfolding sem_init queue_init
start-IsSound x a s h stacks init =
    let k = start_threads x (set_scheduling_algorithm a boot) in
    let at_first : Semaphore = record {
      value = pos 1;
      queue = record { head = null; tail = null };
    } in
    let same : at_first ≡ s = cc init in
    subst (λ r. Sound k r h (λ j. (first_activation j).point)) same
      (begun-Sound k h (current-start_threads x a) (start_threads-IsTable x a stacks))
