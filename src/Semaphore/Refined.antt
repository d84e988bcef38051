-- ===== src/Semaphore/Refined.antt =====
-- `sem_wait` and `sem_post` implement the ideal semaphore.
use ivos.Base.{
  ℕ, ◌<◌, pos, ◌≡◌, ◌≢◌, refl, sym, ◌∙◌, ap, subst, dec_lt, ◌-ℤ◌, ◌+ℤ◌, done, List, [], ◌∷◌, ◌++◌,
  none, arith, length, Bool, false, if◌then◌else◌, <→ltb,
}
use ivos.Scheduler.Time.{Timeval}
use ivos.Scheduler.Thread.{Kernel}
use ivos.Queue.{Heap, Allocation, null, queue_init}
use ivos.Queue.Chain.{Cells, IsQueue}
use ivos.Semaphore.{Semaphore, sem_wait, sem_post}
use ivos.Semaphore.Ideal.{Ideal, after_wait, after_post, occurs}
use ivos.Semaphore.Balance.{
  Trace, start, waited, posted, passed, waits_in, Hold, Implements, Returns, NotIn-queue,
  length-snoc, Hold-snoc, of_run, no_unit, AreBlocked-wait, AreBlocked-post,
}
use ivos.Semaphore.Branches.{sem_wait-takes, Waits, sem_wait-Waits, sem_post-adds, sem_post-Wakes}

-- sem_wait takes a unit.
takes-Implements :
    {v : ℕ} {a : Ideal} {s : Semaphore} {h : Heap} {k : Kernel}
    → Implements v a s h k
    → 0 < a.units
    → Implements v (after_wait k.gt_current a) (record s { value = s.value -ℤ pos 1 }) h k
unfolding ◌-ℤ◌
takes-Implements {a = a} b l = rw (<→ltb 0 a.units l) (record {
  value = rw b.value (ground arith);
  cells = b.cells;
  queued = b.queued;
  held = b.held;
  are_blocked = b.are_blocked;
  idle = λ m. b.idle l;
  balance = omega (arith, b.balance, l);
})

-- It finds none.
blocks-Implements :
    {v : ℕ} {a : Ideal} {s s' : Semaphore} {h h' : Heap} {k k' : Kernel} (b : Implements v a s h k)
    (m : Allocation)
    → ¬ (0 < a.units)
    → k.gt_current < 5
    → waits_in k k.gt_current ≡ false
    → Waits m s s' h' k k' b.cells
    → Implements v (after_wait k.gt_current a) s' h' k'
blocks-Implements {a = a} {k = k} {k' = k'} b m none_left in_table awake w =
    let i = k.gt_current in
    rw (no_unit a.units none_left) (record {
      value = w.value ∙ b.value;
      cells = b.cells ++ ((m.address, pos i) ∷ []);
      queued = w.queued;
      held = Hold-snoc b.cells a.waiting m.address i b.held in_table;
      are_blocked = AreBlocked-wait i a.waiting k k' b.are_blocked awake w.is_blocked w.others;
      idle = λ l. absurd (none_left l);
      balance = omega (arith, b.balance, length-snoc a.waiting i);
    })

post-Implements :
    {v : ℕ} {s : Semaphore} {h : Heap} {k : Kernel} (a : Ideal) (waiting : List ℕ) (cells : Cells)
    → (b : Implements v a s h k) → a.waiting ≡ waiting
    → b.cells ≡ cells
    → Hold cells waiting
    → (now : Timeval)
    → (s' : Semaphore) × (h' : Heap) × (k' : Kernel) × (sem_post now s h k ≡ done (s', h', k'))
      × Implements v (after_post a) s' h' k'
unfolding ◌+ℤ◌
post-Implements {s = s} {h} {k} a [] [] b ew ec held now = (
  record s { value = s.value +ℤ pos 1 },
  h,
  k,
  sem_post-adds now s h k (subst (IsQueue h s.queue) ec b.queued),
  rw ew (record {
    value = rw b.value (ground arith);
    cells = [];
    queued = subst (IsQueue h s.queue) ec b.queued;
    held = tt;
    are_blocked = λ j. ap (occurs j) (sym ew) ∙ b.are_blocked j;
    idle = λ l. refl;
    balance = omega (arith, b.balance, ap (length {A = ℕ}) ew);
  }),
)
post-Implements a [] (x ∷ cells) b ew ec held now = absurd held
post-Implements a (i ∷ rest) [] b ew ec held now = absurd held
post-Implements {s = s} {h} {k} a (i ∷ rest) ((p, z) ∷ xs) b ew ec ((is, in_table), held) now =
    let queued = subst (IsQueue h s.queue) (ec ∙ ap (λ t. (p, t) ∷ xs) is) b.queued in
    let (s', h', k', runs, w) = sem_post-Wakes now s h k p i xs in_table queued in
    (
      s',
      h',
      k',
      runs,
      rw ew (record {
        value = w.value ∙ b.value;
        cells = xs;
        queued = w.queued;
        held = held;
        are_blocked =
            AreBlocked-post i rest k k' (λ j. ap (occurs j) (sym ew) ∙ b.are_blocked j) w.is_ready
              w.others;
        idle = λ l. absurd (cc (b.idle l, ew));
        balance = omega (arith, b.balance, ap (length {A = ℕ}) ew);
      }),
    )

wait-Implements :
    {v : ℕ} {a : Ideal} {s : Semaphore} {h : Heap} {k : Kernel}
    → Implements v a s h k
    → (m : Allocation) (now : Timeval) → m.address ≢ null
    → h m.address ≡ none
    → (s' : Semaphore) × (h' : Heap) × (k' : Kernel) × (sem_wait m now s h k ≡ done (s', h', k'))
      × (k.gt_current < 5
          → waits_in k k.gt_current ≡ false
          → Implements v (after_wait k.gt_current a) s' h' k')
wait-Implements {a = a} {s} {h} {k} b m now nz unused = elim (dec_lt 0 a.units) [
  | yes some_left ↦ (
    record s { value = s.value -ℤ pos 1 },
    h,
    k,
    sem_wait-takes m now s h k (rw b.value (omega (arith, some_left))),
    λ in_table awake. takes-Implements b some_left,
  )
  | no none_left ↦
      let (s', h', k', runs, w) =
        sem_wait-Waits m now s h k b.cells (rw b.value (omega arith)) nz
          (NotIn-queue h m.address s.queue b.cells unused b.queued) b.queued in
      (s', h', k', runs, λ in_table awake. blocks-Implements b m none_left in_table awake w)
]

Implements-passed :
    {v : ℕ} {a : Ideal} {s : Semaphore} {h : Heap} {k k' : Kernel}
    → Implements v a s h k
    → ((j : ℕ) → waits_in k' j ≡ waits_in k j)
    → Implements v a s h k'
Implements-passed b same = record {
  value = b.value;
  cells = b.cells;
  queued = b.queued;
  held = b.held;
  are_blocked = λ j. b.are_blocked j ∙ ap (λ (t : Bool). if t then 1 else 0) (sym (same j));
  idle = b.idle;
  balance = b.balance;
}

Implements-Trace :
    {v : ℕ} {a : Ideal} {s : Semaphore} {h : Heap} {k : Kernel}
    → Trace v a s h k
    → Implements v a s h k
unfolding queue_init
Implements-Trace {v} (start h k awake) = record {
  value = refl;
  cells = [];
  queued = (refl, refl);
  held = tt;
  are_blocked = λ j. rw (awake j) refl;
  idle = λ l. refl;
  balance = omega arith;
}
Implements-Trace (waited t m now nz unused in_table awake e) =
    let (s1, h1, k1, runs, next) = wait-Implements (Implements-Trace t) m now nz unused in
    of_run (sym runs ∙ e) (next in_table awake)
Implements-Trace (posted {a = a} t now e) =
    let b = Implements-Trace t in
    let (s1, h1, k1, runs, next) = post-Implements a a.waiting b.cells b refl refl b.held now in
    of_run (sym runs ∙ e) next
Implements-Trace (passed t k' same) = Implements-passed (Implements-Trace t) same

-- After any waits and posts from `v` units, with no thread blocked before, each wait by a thread that is
-- not blocked, and nothing else that blocks threads or wakes them: the semaphore is the ideal one. Its
-- value is the units that are left; its queue holds the threads that wait, in the order in which they
-- came, each once; these are the threads that are blocked; no thread waits while a unit is left; units,
-- waits, posts and waiting threads add up. And the next call of either operation returns.
pub Trace-Implements :
    {v : ℕ} {a : Ideal} {s : Semaphore} {h : Heap} {k : Kernel}
    → Trace v a s h k
    → Implements v a s h k × Returns s h k
Trace-Implements {a = a} t =
    let b = Implements-Trace t in
    (
      b,
      record {
        wait_returns = λ m now nz unused.
            let (s', h', k', runs, next) = wait-Implements b m now nz unused in (s', h', k', runs);
        post_returns = λ now.
            let (s', h', k', runs, next) =
              post-Implements a a.waiting b.cells b refl refl b.held now in
            (s', h', k', runs);
      },
    )
