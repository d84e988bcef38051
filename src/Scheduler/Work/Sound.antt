-- ===== src/Scheduler/Work/Sound.antt =====
-- The invariant of the program: what its statements that do not touch the semaphore, and the timer,
-- leave of it.
use ivos.Base.{
  ℕ, ◌+◌, ◌<◌, ◌≡◌, ◌≢◌, refl, sym, ap, ◌∙◌, subst, pos, Bool, true, false, ◌&&◌, not, [], arith,
  done, ℕ_discrete, if◌then◌else◌,
}
use ivos.Scheduler.Thread.{State, unused, running, ready, blocked, is_state, Kernel, state_of}
use ivos.Scheduler.Policy.Slots.{is_state-ne}
use ivos.Scheduler.Switch.{Inputs, gt_reset_sig, gt_schedule}
use ivos.Scheduler.Switch.Running.{
  OnlyCurrent, Scheduled, yielded, gt_schedule-Scheduled, state-Scheduled, gt_schedule-Ran,
}
use ivos.Queue.{Heap}
use ivos.Queue.Chain.{Cells, IsQueue}
use ivos.Semaphore.{Semaphore}
use ivos.Scheduler.Work.{
  Point, in_main, at_start, at_wait, at_begin, at_first_sleep, at_end, at_second_sleep, at_post,
}
use ivos.Scheduler.Work.Totals.{total, total-same, listed, AllSlots}

-- Between sem_wait and sem_post.
abbrev pub is_inside : Point → Bool
is_inside in_main = false
is_inside at_start = false
is_inside at_wait = false
is_inside at_begin = true
is_inside at_first_sleep = true
is_inside at_end = true
is_inside at_second_sleep = true
is_inside at_post = true

-- Where a thread that is blocked can stand.
abbrev pub may_be_blocked : Point → Bool
may_be_blocked at_begin = true
may_be_blocked at_first_sleep = true
may_be_blocked in_main = false
may_be_blocked at_start = false
may_be_blocked at_wait = false
may_be_blocked at_end = false
may_be_blocked at_second_sleep = false
may_be_blocked at_post = false

abbrev pub is_blocked : Kernel → ℕ → Bool
is_blocked k j = is_state (state_of k j) blocked

-- Whether thread `j` has the semaphore: it is inside and does not wait.
abbrev pub has_it : Bool → Point → Bool
has_it waits at = is_inside at && not waits

abbrev pub owners : (waits : ℕ → Bool) → (at : ℕ → Point) → ℕ → ℕ
owners waits at j = if has_it (waits j) (at j) then 1 else 0

-- The units of the semaphore and the threads that have it are one together; the queue has each blocked
-- thread once and no other.
pub record Sound (k : Kernel) (s : Semaphore) (h : Heap) (at : ℕ → Point) : Type 0 where
  pub only : OnlyCurrent k
  pub units : ℕ
  pub cells : Cells
  pub value : s.value ≡ pos units
  pub waiting : IsQueue h s.queue cells
  pub slots : AllSlots cells
  pub once : (j : ℕ) → j < 5 → listed j cells ≡ (if is_blocked k j then 1 else 0)
  pub stands : (j : ℕ) → j < 5 → is_blocked k j ≡ true → may_be_blocked (at j) ≡ true
  pub balance : units + total 5 (owners (is_blocked k) at) ≡ 1
  pub idle : 0 < units → cells ≡ []

-- The current thread goes to another point, inside if it was inside.
pub Sound-move :
    {k : Kernel} {s : Semaphore} {h : Heap} {at : ℕ → Point} (at' : ℕ → Point)
    → Sound k s h at
    → ((j : ℕ) → j ≢ k.gt_current → at' j ≡ at j)
    → is_inside (at' k.gt_current) ≡ is_inside (at k.gt_current)
    → (is_blocked k k.gt_current ≡ true → may_be_blocked (at' k.gt_current) ≡ true)
    → Sound k s h at'
Sound-move {k} {s} {h} {at} at' v others same may = record {
  only = v.only;
  units = v.units;
  cells = v.cells;
  value = v.value;
  waiting = v.waiting;
  slots = v.slots;
  once = v.once;
  stands = λ j l b. elim (ℕ_discrete j k.gt_current) [
    | yes e ↦ ap (λ i. may_be_blocked (at' i)) e ∙ may (subst (λ i. is_blocked k i ≡ true) e b)
    | no ne ↦ ap may_be_blocked (others j ne) ∙ v.stands j l b
  ];
  balance = ap (λ (t : ℕ). v.units + t) kept ∙ v.balance;
  idle = v.idle;
}
  where
    inside : (j : ℕ) → is_inside (at' j) ≡ is_inside (at j)
    inside j = elim (ℕ_discrete j k.gt_current) [
      | yes e ↦ subst (λ i. is_inside (at' i) ≡ is_inside (at i)) (sym e) same
      | no ne ↦ ap is_inside (others j ne)
    ]

    kept : total 5 (owners (is_blocked k) at') ≡ total 5 (owners (is_blocked k) at)
    kept =
        total-same 5 _ _
          λ j l. ap (λ (b : Bool). if b && not (is_blocked k j) then 1 else 0) (inside j)

-- The kernel changes, but the same threads are blocked.
pub Sound-same_blocked :
    {k k' : Kernel} {s : Semaphore} {h : Heap} {at : ℕ → Point}
    → Sound k s h at
    → OnlyCurrent k'
    → ((j : ℕ) → j < 5 → is_blocked k' j ≡ is_blocked k j)
    → Sound k' s h at
Sound-same_blocked {k} {k'} {s} {h} {at} v only same = record {
  only = only;
  units = v.units;
  cells = v.cells;
  value = v.value;
  waiting = v.waiting;
  slots = v.slots;
  once = λ j l. v.once j l ∙ ap (λ (b : Bool). if b then 1 else 0) (sym (same j l));
  stands = λ j l b. v.stands j l (sym (same j l) ∙ b);
  balance =
      ap (λ (t : ℕ). v.units + t)
        (total-same 5 _ _ λ j l. ap (λ b. if has_it b (at j) then 1 else 0) (same j l))
      ∙ v.balance;
  idle = v.idle;
}

is_blocked-yielded : (s : State) → is_state (yielded s) blocked ≡ is_state s blocked
is_blocked-yielded unused = refl
is_blocked-yielded running = refl
is_blocked-yielded ready = refl
is_blocked-yielded blocked = refl

module _ {x : Inputs} {k k' : Kernel} {b : Bool} (s : Scheduled x k k' b) (j : ℕ) where
  is_blocked-scheduled : is_blocked k' j ≡ is_blocked k j
  unfolding gt_reset_sig
  is_blocked-scheduled = elim (ℕ_discrete j s.next) [
    | yes e ↦
        let awake = is_state-ne (state_of k s.next) blocked s.may_run.awake in
        ground (arith, state-Scheduled s j, ap (is_blocked k) e)
    | no ne ↦ elim (ℕ_discrete j k.gt_current) [
      | yes c ↦ ground (
        arith,
        state-Scheduled s j,
        is_blocked-yielded (state_of k k.gt_current),
        ap (is_blocked k) c,
      )
      | no nc ↦ ground (arith, state-Scheduled s j)
    ]
  ]

-- The timer.
pub Sound-schedule :
    {k : Kernel} {s : Semaphore} {h : Heap} {at : ℕ → Point} (rounds : ℕ) (x : Inputs) (k' : Kernel)
    (b : Bool)
    → Sound k s h at
    → gt_schedule rounds x k ≡ done (k', b)
    → Sound k' s h at
Sound-schedule {k} rounds x k' b v e =
    let ran = gt_schedule-Ran rounds x k k' b v.only e in
    Sound-same_blocked v (record { within = ran.within; others = ran.others })
      λ j l. is_blocked-scheduled (gt_schedule-Scheduled rounds x k k' b v.only.within e) j
