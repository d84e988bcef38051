-- ===== src/Scheduler/Policy/RoundRobin.antt =====
-- What `round_robin` finds, in all three cases.
use ivos.Base.{
  ℕ, zero, suc, ◌<◌, ◌≤◌, ◌≡◌, ◌≢◌, true, arith, done, runs_on, refl, sym, subst, ◌∙◌, eq→==,
}
use ivos.Scheduler.Thread.{ready, blocked, Kernel, state_of}
use ivos.Scheduler.Policy.{next_slot, round_robin}
use ivos.Scheduler.Policy.Slots.{
  after, after-zero, after-ne, after-lt, next_slot-eq, next_slot-lt, after-next_slot, is_state-eq,
  is_state-ne,
}

-- The slot `i` places after `p` is ready and none before it is.
pub record FirstReady (k : Kernel) (p i : ℕ) : Type 0 where
  pub is_ready : state_of k (after p i) ≡ ready
  pub none_before : (e : ℕ) → e < i → state_of k (after p e) ≢ ready

FirstReady-next :
    {k : Kernel} {p i : ℕ} → p < 5 → FirstReady k p (suc i) → FirstReady k (next_slot p) i
FirstReady-next {k} {p} {i} h f = record {
  is_ready = subst (λ s. state_of k s ≡ ready) (sym (after-next_slot p i h)) f.is_ready;
  none_before = λ e l r.
      f.none_before (suc e) (omega arith)
        (subst (λ s. state_of k s ≡ ready) (after-next_slot p e h) r);
}

module _ (k : Kernel) where
  -- The search passes no slot that is ready, and does not come back to the current thread before.
  round_robin-found :
      (i rounds p : ℕ)
      → p < 5
      → i < rounds
      → FirstReady k p i
      → ((e : ℕ) → 0 < e → e ≤ i → after p e ≢ k.gt_current)
      → round_robin rounds k p ≡ done (after p i, true)
  unfolding round_robin
  round_robin-found i zero p h l f away = absurd (omega arith)
  round_robin-found zero (suc rounds) p h l f away =
      let here : state_of k p ≡ ready =
        subst (λ s. state_of k s ≡ ready) (after-zero p h) f.is_ready in
      rw (is_state-eq _ _ here) (rw (after-zero p h))
  round_robin-found (suc i) (suc rounds) p h l f away =
      let rest =
        round_robin-found i rounds (next_slot p) (next_slot-lt p h) (omega arith)
          (FirstReady-next h f)
          (λ e a b x. away (suc e) (omega arith) (omega arith) (sym (after-next_slot p e h) ∙ x)) in
      let here : state_of k p ≢ ready =
        subst (λ s. state_of k s ≢ ready) (after-zero p h) (f.none_before 0 (omega arith)) in
      let onward : next_slot p ≢ k.gt_current =
        λ x. away 1 (omega arith) (omega arith) (sym (next_slot-eq p h) ∙ x) in
      ground (arith, rest, is_state-ne _ _ here, onward, after-next_slot p i h)

  -- No slot on the way is ready, and the current thread is reached.
  round_robin-back :
      (d rounds p : ℕ)
      → p < 5
      → d < rounds
      → after p (suc d) ≡ k.gt_current
      → ((e : ℕ) → e ≤ d → state_of k (after p e) ≢ ready)
      → state_of k k.gt_current ≢ blocked
      → round_robin rounds k p ≡ done (k.gt_current, true)
  unfolding round_robin
  round_robin-back d zero p h l e none awake = absurd (omega arith)
  round_robin-back zero (suc rounds) p h l e none awake =
      let here : state_of k p ≢ ready =
        subst (λ s. state_of k s ≢ ready) (after-zero p h) (none 0 (omega arith)) in
      let there : next_slot p ≡ k.gt_current = next_slot-eq p h ∙ e in
      rw (is_state-ne _ _ here, there, is_state-ne _ _ awake, eq→== k.gt_current _ refl) refl
  round_robin-back (suc d) (suc rounds) p h l e none awake =
      let rest =
        round_robin-back d rounds (next_slot p) (next_slot-lt p h) (omega arith)
          (after-next_slot p (suc d) h ∙ e)
          (λ b a x.
            none (suc b) (omega arith)
              (subst (λ s. state_of k s ≡ ready) (after-next_slot p b h) x))
          awake in
      let here : state_of k p ≢ ready =
        subst (λ s. state_of k s ≢ ready) (after-zero p h) (none 0 (omega arith)) in
      ground (arith, rest, is_state-ne _ _ here, is_state-ne _ _ awake)

  -- The search goes on for ever.
  round_robin-never :
      (rounds p : ℕ)
      → p < 5
      → ((j : ℕ) → j < 5 → state_of k j ≢ ready)
      → state_of k k.gt_current ≡ blocked
      → round_robin rounds k p ≡ runs_on
  unfolding round_robin
  round_robin-never zero p h none shut = refl
  round_robin-never (suc rounds) p h none shut = ground (
    arith,
    round_robin-never rounds (next_slot p) (next_slot-lt p h) none shut,
    is_state-ne _ _ (none p h),
  )

-- `round_robin`, started at the current thread and given five rounds or more, returns true with the
-- first ready slot at or after it in cyclic order, whatever the state of the current thread.
pub round_robin-first :
    (k : Kernel) (i rounds : ℕ)
    → k.gt_current < 5
    → i < 5
    → 5 ≤ rounds
    → FirstReady k k.gt_current i
    → round_robin rounds k k.gt_current ≡ done (after k.gt_current i, true)
round_robin-first k i rounds c l r f =
    round_robin-found k i rounds k.gt_current c (omega arith) f
      (λ e a b. after-ne k.gt_current e c a (omega arith))

-- Where no thread is ready and the current one is not blocked, `round_robin` returns true with the
-- current thread itself.
pub round_robin-alone :
    (k : Kernel) (rounds : ℕ)
    → k.gt_current < 5
    → 5 ≤ rounds
    → ((j : ℕ) → j < 5 → state_of k j ≢ ready)
    → state_of k k.gt_current ≢ blocked
    → round_robin rounds k k.gt_current ≡ done (k.gt_current, true)
round_robin-alone k rounds c r none awake =
    round_robin-back k 4 rounds k.gt_current c (omega arith) (omega arith)
      (λ e l. none (after k.gt_current e) (after-lt k.gt_current e)) awake

-- Where no thread is ready and the current one is blocked, `round_robin` does not return, however
-- many rounds its loop is given.
pub round_robin-deadlock :
    (k : Kernel) (rounds : ℕ)
    → k.gt_current < 5
    → ((j : ℕ) → j < 5 → state_of k j ≢ ready)
    → state_of k k.gt_current ≡ blocked
    → round_robin rounds k k.gt_current ≡ runs_on
round_robin-deadlock k rounds c none shut = round_robin-never k rounds k.gt_current c none shut
