-- ===== src/Scheduler/Work/Waits.antt =====
-- What `sem_wait` leaves of the invariant.
use ivos.Base.{
  ℕ, ◌+◌, ◌-◌, ◌<◌, ◌≡◌, ◌≢◌, refl, sym, ap, ◌∙◌, subst, pos, ◌-ℤ◌, Bool, true, false, Bool-cases,
  inl, inr, [], ◌∷◌, ◌++◌, none, arith, done, ℕ_discrete, dec_lt, if◌then◌else◌,
}
use ivos.Scheduler.Time.{Timeval}
use ivos.Scheduler.Thread.{State, Gt, blocked, is_state, Kernel}
use ivos.Queue.{Heap, Allocation, null}
use ivos.Semaphore.{Semaphore, sem_wait}
use ivos.Semaphore.Branches.{sem_wait-takes, Waits, sem_wait-Waits}
use ivos.Semaphore.Balance.{NotIn-queue}
use ivos.Scheduler.Work.{Point, at_wait, at_begin}
use ivos.Scheduler.Work.Totals.{
  total-same, total-change, listed, listed-append, listed-pos, listed_self, AllSlots-append,
}
use ivos.Scheduler.Work.Sound.{may_be_blocked, is_blocked, has_it, owners, Sound}

one_less : (units : ℕ) → 0 < units → pos units -ℤ pos 1 ≡ pos (units - 1)
unfolding ◌-ℤ◌
one_less units l = ground arith

-- A thread that does not stand where it may be blocked is not.
pub not-is_blocked :
    {k : Kernel} {s : Semaphore} {h : Heap} {at : ℕ → Point} (p : Point)
    → Sound k s h at
    → at k.gt_current ≡ p
    → may_be_blocked p ≡ false
    → is_blocked k k.gt_current ≡ false
not-is_blocked {k} p v e free = elim (Bool-cases (is_blocked k k.gt_current)) [
  | inl b ↦ absurd (cc (v.stands k.gt_current v.only.within b, ap may_be_blocked e, free))
  | inr n ↦ n
]

-- The current thread is before sem_wait, and then behind it.
module _ {k : Kernel} {s : Semaphore} {h : Heap} {at : ℕ → Point} (at' : ℕ → Point)
    (v : Sound k s h at) (before : at k.gt_current ≡ at_wait) (behind : at' k.gt_current ≡ at_begin)
    (others : (j : ℕ) → j ≢ k.gt_current → at' j ≡ at j) where
  awake : is_blocked k k.gt_current ≡ false
  awake = not-is_blocked at_wait v before refl

  stands' :
      (waits : ℕ → Bool)
      → ((j : ℕ) → j < 5 → j ≢ k.gt_current → waits j ≡ true → may_be_blocked (at j) ≡ true)
      → (j : ℕ) → j < 5
      → waits j ≡ true
      → may_be_blocked (at' j) ≡ true
  stands' waits old j l b = elim (ℕ_discrete j k.gt_current) [
    | yes e ↦ ap (λ i. may_be_blocked (at' i)) e ∙ ap may_be_blocked behind
    | no ne ↦ ap may_be_blocked (others j ne) ∙ old j l ne b
  ]

  Sound-takes : 0 < v.units → Sound k (record s { value = s.value -ℤ pos 1 }) h at'
  Sound-takes l = record {
    only = v.only;
    units = v.units - 1;
    cells = v.cells;
    value = ap (λ z. z -ℤ pos 1) v.value ∙ one_less v.units l;
    waiting = v.waiting;
    slots = v.slots;
    once = v.once;
    stands = stands' (is_blocked k) (λ j m ne b. v.stands j m b);
    balance = omega (
      arith,
      v.balance,
      total-change 5 k.gt_current (owners (is_blocked k) at') (owners (is_blocked k) at)
          v.only.within
          (λ j m ne. ap (λ p. if has_it (is_blocked k j) p then 1 else 0) (others j ne)),
      had,
      has,
    );
    idle = λ m. v.idle l;
  }
    where
      had : owners (is_blocked k) at k.gt_current ≡ 0
      had = rw before refl

      has : owners (is_blocked k) at' k.gt_current ≡ 1
      has = rw (behind, awake) refl

  Sound-waits :
      (m : Allocation) (s' : Semaphore) (h' : Heap) (k' : Kernel)
      → ¬ (0 < v.units)
      → Waits m s s' h' k k' v.cells
      → Sound k' s' h' at'
  Sound-waits m s' h' k' none_left w = record {
    only = record {
      within = rw current v.only.within;
      others = λ j l ne r.
          v.only.others j l (λ e. ne (e ∙ sym current))
            (ap (λ t. t.state) (sym (w.others j (λ e. ne (e ∙ sym current)))) ∙ r);
    };
    units = v.units;
    cells = v.cells ++ (m.address, pos k.gt_current) ∷ [];
    value = w.value ∙ v.value;
    waiting = w.queued;
    slots = AllSlots-append v.cells _ v.slots ((k.gt_current, refl, v.only.within), tt);
    once = λ j l. listed-append j v.cells _ ∙ counted j l;
    stands =
        stands' (is_blocked k')
          (λ j l ne b. v.stands j l (ap (λ t. is_state t.state blocked) (sym (w.others j ne)) ∙ b));
    balance = ap (λ (t : ℕ). v.units + t) (total-same 5 _ _ owned) ∙ v.balance;
    idle = λ l. absurd (none_left l);
  }
    where
      current : k'.gt_current ≡ k.gt_current
      current = ap (λ (r : Kernel). r.gt_current) w.control

      waits : is_blocked k' k.gt_current ≡ true
      waits = ap (λ (t : State). is_state t blocked) w.is_blocked

      same : (j : ℕ) → j ≢ k.gt_current → is_blocked k' j ≡ is_blocked k j
      same j ne = ap (λ (t : Gt). is_state t.state blocked) (w.others j ne)

      absent : listed k.gt_current v.cells ≡ 0
      absent = v.once k.gt_current v.only.within ∙ ap (λ (b : Bool). if b then 1 else 0) awake

      counted :
          (j : ℕ)
          → j < 5
          → listed j v.cells + listed j ((m.address, pos k.gt_current) ∷ [])
            ≡ (if is_blocked k' j then 1 else 0)
      counted j l = elim (ℕ_discrete j k.gt_current) [
        | yes e ↦
            subst
              (λ i.
                listed i v.cells + listed i ((m.address, pos k.gt_current) ∷ [])
                ≡ (if is_blocked k' i then 1 else 0))
              (sym e) (rw waits (omega (arith, absent, listed_self k.gt_current m.address [])))
        | no ne ↦
            rw (listed-pos k.gt_current j m.address [] ne, same j ne) (omega (arith, v.once j l))
      ]

      owned_here : owners (is_blocked k') at' k.gt_current ≡ owners (is_blocked k) at k.gt_current
      owned_here = rw (behind, waits, before) refl

      owned : (j : ℕ) → j < 5 → owners (is_blocked k') at' j ≡ owners (is_blocked k) at j
      owned j l = elim (ℕ_discrete j k.gt_current) [
        | yes e ↦
            subst (λ i. owners (is_blocked k') at' i ≡ owners (is_blocked k) at i) (sym e)
              owned_here
        | no ne ↦ rw (same j ne, others j ne) refl
      ]

  -- sem_wait returns, and keeps the invariant.
  pub sem_wait-Sound :
      (m : Allocation) (now : Timeval)
      → m.address ≢ null
      → h m.address ≡ none
      → (s' : Semaphore) × (h' : Heap) × (k' : Kernel) × (sem_wait m now s h k ≡ done (s', h', k'))
        × Sound k' s' h' at'
  sem_wait-Sound m now nz unused = elim (dec_lt 0 v.units) [
    | yes l ↦ (
      record s { value = s.value -ℤ pos 1 },
      h,
      k,
      sem_wait-takes m now s h k (rw v.value (omega (arith, l))),
      Sound-takes l,
    )
    | no none_left ↦
        let (s', h', k', runs, w) =
          sem_wait-Waits m now s h k v.cells (rw v.value (omega arith)) nz
            (NotIn-queue h m.address s.queue v.cells unused v.waiting) v.waiting in
        (s', h', k', runs, Sound-waits m s' h' k' none_left w)
  ]
