-- ===== src/Scheduler/Work/Posts.antt =====
-- What `sem_post` leaves of the invariant.
use ivos.Base.{
  ℕ, ◌+◌, ◌<◌, ◌≡◌, ◌≢◌, refl, sym, ap, ◌∙◌, subst, pos, ◌+ℤ◌, Bool, true, false, [], ◌∷◌, arith,
  done, ℕ_discrete, if◌then◌else◌,
}
use ivos.Scheduler.Time.{Timeval}
use ivos.Scheduler.Thread.{State, Gt, running, blocked, is_state, Kernel, state_of}
use ivos.Queue.{Heap}
use ivos.Queue.Chain.{Cells, IsQueue}
use ivos.Semaphore.{Semaphore, sem_post}
use ivos.Semaphore.Branches.{sem_post-adds, Wakes, sem_post-Wakes}
use ivos.Scheduler.Work.{Point, at_wait, at_post}
use ivos.Scheduler.Work.Totals.{total, total-change, listed, listed-pos, listed_self, AllSlots}
use ivos.Scheduler.Work.Sound.{is_inside, may_be_blocked, is_blocked, has_it, owners, Sound}
use ivos.Scheduler.Work.Waits.{not-is_blocked}

one_more : (units : ℕ) → pos units +ℤ pos 1 ≡ pos (units + 1)
unfolding ◌+ℤ◌
one_more units = ground arith

pub inside-may_be_blocked : (p : Point) → may_be_blocked p ≡ true → is_inside p ≡ true
inside-may_be_blocked p e = ground arith

-- The current thread is before sem_post, and then at the head of its loop.
module _ {k : Kernel} {s : Semaphore} {h : Heap} {at : ℕ → Point} (at' : ℕ → Point)
    (v : Sound k s h at) (before : at k.gt_current ≡ at_post) (behind : at' k.gt_current ≡ at_wait)
    (others : (j : ℕ) → j ≢ k.gt_current → at' j ≡ at j) where
  awake : is_blocked k k.gt_current ≡ false
  awake = not-is_blocked at_post v before refl

  -- Its unit is given back.
  leaves :
      (waits : ℕ → Bool)
      → waits k.gt_current ≡ false
      → total 5 (owners waits at') + 1 ≡ total 5 (owners waits at)
  leaves waits free = omega (
    arith,
    total-change 5 k.gt_current (owners waits at') (owners waits at) v.only.within
        (λ j m ne. ap (λ p. if has_it (waits j) p then 1 else 0) (others j ne)),
    had,
    has,
  )
    where
      had : owners waits at k.gt_current ≡ 1
      had = rw (before, free) refl

      has : owners waits at' k.gt_current ≡ 0
      has = rw behind refl

  Sound-adds : v.cells ≡ [] → Sound k (record s { value = s.value +ℤ pos 1 }) h at'
  Sound-adds none_waits = record {
    only = v.only;
    units = v.units + 1;
    cells = v.cells;
    value = ap (λ z. z +ℤ pos 1) v.value ∙ one_more v.units;
    waiting = v.waiting;
    slots = v.slots;
    once = v.once;
    stands = λ j l b. elim (ℕ_discrete j k.gt_current) [
      | yes e ↦ absurd (cc (subst (λ i. is_blocked k i ≡ true) e b, awake))
      | no ne ↦ ap may_be_blocked (others j ne) ∙ v.stands j l b
    ];
    balance = omega (arith, v.balance, leaves (is_blocked k) awake);
    idle = λ l. none_waits;
  }

  module _ (a i : ℕ) (xs : Cells) (s' : Semaphore) (h' : Heap) (k' : Kernel) (in_table : i < 5)
      (first : v.cells ≡ (a, pos i) ∷ xs) (slots : AllSlots xs) (w : Wakes i s s' h' k k' xs) where
    waited : is_blocked k i ≡ true
    waited = ground (arith, v.once i in_table, ap (listed i) first, listed_self i a xs)

    woken : is_blocked k' i ≡ false
    woken = ap (λ (t : State). is_state t blocked) w.is_ready

    same : (j : ℕ) → j ≢ i → is_blocked k' j ≡ is_blocked k j
    same j ne = ap (λ (t : Gt). is_state t.state blocked) (w.others j ne)

    current : k'.gt_current ≡ k.gt_current
    current = ap (λ (r : Kernel). r.gt_current) w.control

    differs : k.gt_current ≢ i
    differs e = cc (subst (λ j. is_blocked k j ≡ false) e awake, waited)

    -- The thread that is woken has the unit.
    enters : total 5 (owners (is_blocked k') at) ≡ total 5 (owners (is_blocked k) at) + 1
    enters = omega (
      arith,
      total-change 5 i (owners (is_blocked k') at) (owners (is_blocked k) at) in_table
          (λ j m ne. ap (λ b. if has_it b (at j) then 1 else 0) (same j ne)),
      had,
      has,
    )
      where
        had : owners (is_blocked k) at i ≡ 0
        had = ground (arith, waited)

        has : owners (is_blocked k') at i ≡ 1
        has = rw (inside-may_be_blocked (at i) (v.stands i in_table waited), woken) refl

    counted : (j : ℕ) → j < 5 → listed j xs ≡ (if is_blocked k' j then 1 else 0)
    counted j l = elim (ℕ_discrete j i) [
      | yes e ↦
          subst (λ t. listed t xs ≡ (if is_blocked k' t then 1 else 0)) (sym e)
            (rw woken (
              omega (
                arith,
                listed_self i a xs,
                ap (listed i) first,
                v.once i in_table ∙ ap (λ (b : Bool). if b then 1 else 0) waited,
              )))
      | no ne ↦
          rw (same j ne) (sym (listed-pos i j a xs ne) ∙ ap (listed j) (sym first) ∙ v.once j l)
    ]

    stood : (j : ℕ) → j < 5 → is_blocked k' j ≡ true → may_be_blocked (at' j) ≡ true
    stood j l b = elim (ℕ_discrete j i) [
      | yes e ↦ absurd (cc (subst (λ i. is_blocked k' i ≡ true) e b, woken))
      | no ne ↦ elim (ℕ_discrete j k.gt_current) [
        | yes c ↦ absurd (cc (subst (λ i. is_blocked k i ≡ true) c (sym (same j ne) ∙ b), awake))
        | no nc ↦ ap may_be_blocked (others j nc) ∙ v.stands j l (sym (same j ne) ∙ b)
      ]
    ]

    Sound-wakes : Sound k' s' h' at'
    Sound-wakes = record {
      only = record {
        within = rw current v.only.within;
        others = λ j l ne r. elim (ℕ_discrete j i) [
          | yes e ↦ absurd (cc (subst (λ i. state_of k' i ≡ running) e r, w.is_ready))
          | no other ↦
              v.only.others j l (λ e. ne (e ∙ sym current))
                (ap (λ t. t.state) (sym (w.others j other)) ∙ r)
        ];
      };
      units = v.units;
      cells = xs;
      value = w.value ∙ v.value;
      waiting = w.queued;
      slots = slots;
      once = counted;
      stands = stood;
      balance =
          omega
            (arith, v.balance, enters, leaves (is_blocked k') (same k.gt_current differs ∙ awake));
      idle = λ l. absurd (cc (v.idle l, first));
    }

  posts :
      (now : Timeval) (xs : Cells)
      → v.cells ≡ xs
      → AllSlots xs
      → (s' : Semaphore) × (h' : Heap) × (k' : Kernel) × (sem_post now s h k ≡ done (s', h', k'))
        × Sound k' s' h' at'
  posts now [] first slots = (
    record s { value = s.value +ℤ pos 1 },
    h,
    k,
    sem_post-adds now s h k (subst (IsQueue h s.queue) first v.waiting),
    Sound-adds first,
  )
  posts now ((a, z) ∷ xs) first ((i, is, in_table), slots) =
      let first' = first ∙ ap (λ t. (a, t) ∷ xs) is in
      let (s', h', k', runs, w) =
        sem_post-Wakes now s h k a i xs in_table (subst (IsQueue h s.queue) first' v.waiting) in
      (s', h', k', runs, Sound-wakes a i xs s' h' k' in_table first' slots w)

  -- sem_post returns, and keeps the invariant.
  pub sem_post-Sound :
      (now : Timeval)
      → (s' : Semaphore) × (h' : Heap) × (k' : Kernel) × (sem_post now s h k ≡ done (s', h', k'))
        × Sound k' s' h' at'
  sem_post-Sound now = posts now v.cells refl v.slots
