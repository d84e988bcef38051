-- ===== src/Scheduler/Policy/Aging.antt =====
-- `round_robin_prio` as its callers see it: it returns, and comes nearer to a ready thread.
use ivos.Base.{
  ℕ, zero, suc, ◌+◌, ◌-◌, ◌*◌, ◌%◌, ◌<◌, ◌≤◌, ◌≡◌, ◌≢◌, ◌⊎◌, inl, inr, true, false, arith, done,
  refl, ap, ◌∙◌, subst, ◌==◌, ◌&&◌, ℕ_discrete, Bool-cases, Outcome, Bool,
}
use ivos.Scheduler.Thread.{ready, blocked, is_state, Gt, Kernel, state_of}
use ivos.Scheduler.Policy.{next_slot, is_due, set_skip_count, round_robin_prio}
use ivos.Scheduler.Policy.Slots.{after, after-lt, next_slot-lt, eq-is_state}
use ivos.Scheduler.Policy.Pass.{
  SameButSkips, state_of-same, same_trans, set_skip_count-same, round_robin_prio-Pass,
}

-- How many rounds of the loop lead from slot `p` to `t`: five for `t` itself.
abbrev pub offset : (p t : ℕ) → ℕ
offset p t = suc ((t + 4 - p) % 5)

-- Five rounds for each skip that thread `t` lacks, and those that lead to it.
abbrev pub wait_bound : Gt → (p t : ℕ) → ℕ
wait_bound thread p t = 5 * (thread.priority - thread.skip_count) + offset p t

-- With a current thread that is not blocked, five rounds of the loop are enough. It returns true
-- with a slot that is ready or current, and changes nothing but skip counts.
pub round_robin_prio-returns :
    (k : Kernel) (rounds : ℕ)
    → k.gt_current < 5
    → 5 ≤ rounds
    → state_of k k.gt_current ≢ blocked
    → (k' : Kernel) × (q : ℕ) × (round_robin_prio rounds k k.gt_current ≡ done (k', q, true))
      × (q < 5)
      × ((state_of k q ≡ ready) ⊎ (q ≡ k.gt_current))
      × SameButSkips k k'
round_robin_prio-returns k rounds c r awake =
    let w =
      round_robin_prio-Pass 4 rounds k k.gt_current c (omega arith) (omega arith) (omega arith)
        awake in
    (
      w.table,
      after k.gt_current (suc w.place),
      w.ends,
      after-lt k.gt_current (suc w.place),
      w.picks,
      w.same,
    )

offset-here : (p t : ℕ) → p < 5 → next_slot p ≡ t → offset p t ≡ 1
offset-here p t h e = ground arith

offset_self : (t : ℕ) → offset t t ≡ 5
offset_self t = omega arith

offset-next :
    (p t : ℕ) → p < 5 → t < 5 → next_slot p ≢ t → offset p t ≡ suc (offset (next_slot p) t)
offset-next p t h l ne = ground arith

-- A search for the next thread, seen from a ready thread `t`: it ends at `t`, or at another slot from
-- which less is left to `t`.
pub record Nears (k : Kernel) (p t : ℕ) (run : Outcome (Kernel × ℕ × Bool)) : Type 0 where
  pub table : Kernel
  pub next : ℕ
  pub ends : run ≡ done (table, next, true)
  pub within : next < 5
  pub same : SameButSkips k table
  pub nearer :
      (next ≡ t)
      ⊎ ((next ≢ t) × (wait_bound (table.gt_table t) next t < wait_bound (k.gt_table t) p t))

-- The rest of the loop from a nearer place.
Nears-onward :
    {k k1 : Kernel} {p q t : ℕ} {run : Outcome (Kernel × ℕ × Bool)}
    → SameButSkips k k1
    → wait_bound (k1.gt_table t) q t < wait_bound (k.gt_table t) p t
    → Nears k1 q t run
    → Nears k p t run
Nears-onward same less n = record {
  table = n.table;
  next = n.next;
  ends = n.ends;
  within = n.within;
  same = same_trans same n.same;
  nearer = elim n.nearer [ inl e ↦ inl e | inr (ne, l) ↦ inr (ne, omega (arith, less, l)) ];
}

module _ (t : ℕ) (l : t < 5) where
  -- The slot that a round tests is another one than `t`, and the skip count of `t` stays.
  passes_by :
      (k k1 : Kernel) (p : ℕ)
      → p < 5
      → next_slot p ≢ t
      → k1.gt_table t ≡ k.gt_table t
      → wait_bound (k1.gt_table t) (next_slot p) t < wait_bound (k.gt_table t) p t
  passes_by k k1 p h ne same = rw (same, offset-next p t h l ne) (omega arith)

  -- `t` is passed over, as it is not due.
  passes_over :
      (k : Kernel) (p : ℕ)
      → p < 5
      → next_slot p ≡ t
      → is_due (k.gt_table t) ≡ false
      → wait_bound
          ((set_skip_count (next_slot p) ((k.gt_table (next_slot p)).skip_count + 1) k).gt_table t)
          (next_slot p)
          t
        < wait_bound (k.gt_table t) p t
  passes_over k p h e late = ground (arith, offset-here p t h e, offset_self t)

  -- The search ends at the slot that it tests.
  stops :
      (n : ℕ) (k : Kernel) (p : ℕ)
      → p < 5
      → Nears k p t (done (set_skip_count (next_slot p) n k, next_slot p, true))
  stops n k p h = record {
    table = set_skip_count (next_slot p) n k;
    next = next_slot p;
    ends = refl;
    within = next_slot-lt p h;
    same = set_skip_count-same (next_slot p) n k;
    nearer = elim (ℕ_discrete (next_slot p) t) [
      | yes e ↦ inl e
      | no ne ↦
          inr
            (ne, passes_by k (set_skip_count (next_slot p) n k) p h ne (apart n k (next_slot p) ne))
    ];
  }
    where
      apart :
          (n : ℕ) (k : Kernel) (q : ℕ) → q ≢ t → (set_skip_count q n k).gt_table t ≡ k.gt_table t
      apart n k q ne = ground arith

  -- A round that goes on.
  goes_on :
      (k : Kernel) (p : ℕ)
      → p < 5
      → state_of k t ≡ ready
      → (is_state (state_of k (next_slot p)) ready && is_due (k.gt_table (next_slot p))) ≡ false
      → wait_bound
          ((set_skip_count (next_slot p) ((k.gt_table (next_slot p)).skip_count + 1) k).gt_table t)
          (next_slot p)
          t
        < wait_bound (k.gt_table t) p t
  goes_on k p h is_ready no_pick = elim (ℕ_discrete (next_slot p) t) [
    | yes e ↦ passes_over k p h e (
        not_due (k.gt_table t) is_ready
          (subst (λ q. (is_state (state_of k q) ready && is_due (k.gt_table q)) ≡ false) e no_pick))
    | no ne ↦
        passes_by k (set_skip_count (next_slot p) ((k.gt_table (next_slot p)).skip_count + 1) k) p h
          ne (ground arith)
  ]
    where
      not_due :
          (g : Gt)
          → g.state ≡ ready
          → (is_state g.state ready && is_due g) ≡ false
          → is_due g ≡ false
      not_due g e f = rw e at f

  -- The loop ends when it has as many rounds as the bound, whatever the state of the current thread.
  pub round_robin_prio-Nears :
      (rounds : ℕ) (k : Kernel) (p : ℕ)
      → p < 5
      → t ≢ k.gt_current
      → state_of k t ≡ ready
      → wait_bound (k.gt_table t) p t ≤ rounds
      → Nears k p t (round_robin_prio rounds k p)
  unfolding round_robin_prio
  round_robin_prio-Nears zero k p h ne is_ready bound = absurd (omega arith)
  round_robin_prio-Nears (suc rounds) k p h ne is_ready bound =
      let q = next_slot p in
      let in_table = next_slot-lt p h in
      elim (Bool-cases (is_state (state_of k q) blocked)) [
        | inl shut ↦
            let other : q ≢ t =
              λ e. cc (eq-is_state (state_of k q) blocked shut, ap (state_of k) e, is_ready) in
            let less = passes_by k k p h other refl in
            rw shut (
              Nears-onward (record { rest = refl; threads = λ j. refl }) less
                (round_robin_prio-Nears rounds k q in_table ne is_ready (omega arith)))
        | inr clear ↦ elim (Bool-cases (is_state (state_of k q) ready && is_due (k.gt_table q))) [
          | inl pick ↦ rw (clear, pick) (stops 0 k p h)
          | inr no_pick ↦ elim (Bool-cases (q == k.gt_current)) [
            | inl back ↦ rw (clear, no_pick, back) (stops _ k p h)
            | inr far ↦
                let skipped = set_skip_count q ((k.gt_table q).skip_count + 1) k in
                let same = set_skip_count-same q ((k.gt_table q).skip_count + 1) k in
                let less = goes_on k p h is_ready no_pick in
                rw (clear, no_pick, far)
                  (Nears-onward same less (
                    round_robin_prio-Nears rounds skipped q in_table ne
                      (state_of-same t same ∙ is_ready) (omega (arith, less, bound))))
          ]
        ]
      ]
