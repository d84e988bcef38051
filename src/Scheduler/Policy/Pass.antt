-- ===== src/Scheduler/Policy/Pass.antt =====
-- One pass of `round_robin_prio` over the table, up to the current thread.
use ivos.Base.{
  ℕ, zero, suc, ◌+◌, ◌<◌, ◌≤◌, ◌≡◌, ◌≢◌, ◌⊎◌, inl, inr, true, false, ◌&&◌, arith, done, refl, sym,
  subst, ◌∙◌, ◌==◌, eq→==, Bool-cases, Outcome, Bool,
}
use ivos.Scheduler.Thread.{ready, blocked, is_state, Gt, Kernel, state_of}
use ivos.Scheduler.Policy.{next_slot, is_due, set_skip_count, round_robin_prio}
use ivos.Scheduler.Policy.Slots.{
  after, next_slot-eq, next_slot-lt, after-next_slot, is_state-ne, eq-is_state,
}

-- Nothing but skip counts may differ.
pub record SameButSkips (k k' : Kernel) : Type 0 where
  pub rest : k' ≡ record k { gt_table = k'.gt_table }
  pub threads :
      (j : ℕ) → k'.gt_table j ≡ record (k.gt_table j) { skip_count = (k'.gt_table j).skip_count }

pub state_of-same : {k k' : Kernel} (j : ℕ) → SameButSkips k k' → state_of k' j ≡ state_of k j
state_of-same j s = ground (arith, s.threads j)

pub current-same : {k k' : Kernel} → SameButSkips k k' → k'.gt_current ≡ k.gt_current
current-same s = ground (arith, s.rest)

pub set_skip_count-same : (i n : ℕ) (k : Kernel) → SameButSkips k (set_skip_count i n k)
set_skip_count-same i n k = record { rest = refl; threads = λ j. ground arith }

pub same_trans : {k k' k'' : Kernel} → SameButSkips k k' → SameButSkips k' k'' → SameButSkips k k''
same_trans a b = record {
  rest = ground (arith, a.rest, b.rest);
  threads = λ j. ground (arith, a.threads j, b.threads j);
}

-- A thread that was met: ready, but not yet due, and its skip count is one more.
pub record Aged (old new : Gt) : Type 0 where
  pub not_due : old.skip_count < old.priority
  pub older : new ≡ record old { skip_count = old.skip_count + 1 }

-- How a pass from `p` to a slot `suc d` places on ends: at a ready thread on the way, or at the
-- current one. The ready threads that it meets before have aged, and those it does not meet are
-- left alone.
pub record Pass (k : Kernel) (p d : ℕ) (run : Outcome (Kernel × ℕ × Bool)) : Type 0 where
  pub table : Kernel
  pub place : ℕ
  pub ends : run ≡ done (table, after p (suc place), true)
  pub within : place ≤ d
  pub picks : (state_of k (after p (suc place)) ≡ ready) ⊎ (after p (suc place) ≡ k.gt_current)
  pub same : SameButSkips k table
  pub apart :
      (t : ℕ) → ((i : ℕ) → i ≤ place → after p (suc i) ≢ t) → table.gt_table t ≡ k.gt_table t
  pub passed :
      (i : ℕ)
      → i < place
      → state_of k (after p (suc i)) ≡ ready
      → Aged (k.gt_table (after p (suc i))) (table.gt_table (after p (suc i)))

Pass-stop :
    {k k' : Kernel} {p d : ℕ}
    → p < 5
    → (n : ℕ) → k' ≡ set_skip_count (next_slot p) n k
    → (state_of k (next_slot p) ≡ ready) ⊎ (next_slot p ≡ k.gt_current)
    → Pass k p d (done (k', next_slot p, true))
Pass-stop {k} {k'} {p} {d} h n e pick = record {
  table = k';
  place = 0;
  ends = ground (arith, next_slot-eq p h);
  within = omega arith;
  picks = subst (λ q. (state_of k q ≡ ready) ⊎ (q ≡ k.gt_current)) (next_slot-eq p h) pick;
  same = subst (SameButSkips k) (sym e) (set_skip_count-same (next_slot p) n k);
  apart = λ t away. ground (arith, away 0, next_slot-eq p h);
  passed = λ i l. absurd (omega arith);
}

-- What one round that goes on does to the table.
record Onward (k k1 : Kernel) (q : ℕ) : Type 0 where
  same : SameButSkips k k1
  others : (j : ℕ) → j ≢ q → k1.gt_table j ≡ k.gt_table j
  aged : state_of k q ≡ ready → Aged (k.gt_table q) (k1.gt_table q)

module _ {k k1 : Kernel} {p d : ℕ} {run : Outcome (Kernel × ℕ × Bool)} (h : p < 5) (l : d < 4)
    (on : Onward k k1 (next_slot p)) (w : Pass k1 (next_slot p) d run) where
  shift : (i : ℕ) → after (next_slot p) (suc i) ≡ after p (suc (suc i))
  shift i = after-next_slot p (suc i) h

  clear_of : (i : ℕ) → i ≤ d → after p (suc (suc i)) ≢ next_slot p
  clear_of i b = ground (arith, next_slot-eq p h)

  passed_step :
      (i : ℕ)
      → i < suc w.place
      → state_of k (after p (suc i)) ≡ ready
      → Aged (k.gt_table (after p (suc i))) (w.table.gt_table (after p (suc i)))
  passed_step zero b r =
      let e : next_slot p ≡ after p 1 = next_slot-eq p h in
      let q = next_slot p in
      let left : w.table.gt_table q ≡ k1.gt_table q =
        w.apart q (λ i b' x. clear_of i (ground (arith, w.within)) (sym (shift i) ∙ x)) in
      subst (λ s. Aged (k.gt_table s) (w.table.gt_table s)) e
        (subst (Aged (k.gt_table q)) (sym left)
          (on.aged (subst (λ s. state_of k s ≡ ready) (sym e) r)))
  passed_step (suc i) b r =
      let s = after p (suc (suc i)) in
      let still : state_of k1 s ≡ ready = state_of-same s on.same ∙ r in
      subst (λ t. Aged t (w.table.gt_table s)) (on.others s (clear_of i (ground (arith, w.within))))
        (subst (λ t. Aged (k1.gt_table t) (w.table.gt_table t)) (shift i)
          (w.passed i (omega arith) (subst (λ t. state_of k1 t ≡ ready) (sym (shift i)) still)))

  Pass-step : Pass k p (suc d) run
  Pass-step = record {
    table = w.table;
    place = suc w.place;
    ends = subst (λ q. run ≡ done (w.table, q, true)) (shift w.place) w.ends;
    within = ground (arith, w.within);
    picks = elim w.picks [
      | inl r ↦
          inl (sym (state_of-same _ on.same) ∙ subst (λ q. state_of k1 q ≡ ready) (shift w.place) r)
      | inr c ↦ inr (sym (shift w.place) ∙ c ∙ current-same on.same)
    ];
    same = same_trans on.same w.same;
    apart = λ t away.
        w.apart t (λ i b x. away (suc i) (omega arith) (sym (shift i) ∙ x))
        ∙ on.others t (λ x. away 0 (omega arith) (sym (next_slot-eq p h) ∙ sym x));
    passed = passed_step;
  }

Onward-refl : {k : Kernel} {q : ℕ} → state_of k q ≡ blocked → Onward k k q
Onward-refl shut = record {
  same = record { rest = refl; threads = λ j. refl };
  others = λ j n. refl;
  aged = λ r. absurd (ground arith);
}

Onward-skip :
    (k : Kernel) (q : ℕ)
    → (is_state (state_of k q) ready && is_due (k.gt_table q)) ≡ false
    → Onward k (set_skip_count q ((k.gt_table q).skip_count + 1) k) q
Onward-skip k q no_pick = record {
  same = set_skip_count-same q _ k;
  others = λ j n. ground arith;
  aged = λ r. record { not_due = ground arith; older = ground arith };
}

-- From a slot that has the current thread `suc d` places ahead, the loop ends within `suc d` rounds.
pub round_robin_prio-Pass :
    (d rounds : ℕ) (k : Kernel) (p : ℕ)
    → p < 5
    → d < 5
    → d < rounds
    → after p (suc d) ≡ k.gt_current
    → state_of k k.gt_current ≢ blocked
    → Pass k p d (round_robin_prio rounds k p)
unfolding round_robin_prio
round_robin_prio-Pass d zero k p h l f e awake = absurd (omega arith)
round_robin_prio-Pass zero (suc rounds) k p h l f e awake =
    let there : next_slot p ≡ k.gt_current = next_slot-eq p h ∙ e in
    let clear : is_state (state_of k (next_slot p)) blocked ≡ false =
      is_state-ne _ _ (subst (λ q. state_of k q ≢ blocked) (sym there) awake) in
    rw clear
      (elim (Bool-cases
        (is_state (state_of k (next_slot p)) ready && is_due (k.gt_table (next_slot p)))) [
          | inl pick ↦ rw pick (Pass-stop h 0 refl (inl (ground arith)))
          | inr no_pick ↦
              rw (no_pick, eq→== (next_slot p) k.gt_current there) (Pass-stop h _ refl (inr there))
        ])
round_robin_prio-Pass (suc d) (suc rounds) k p h l f e awake =
    let q = next_slot p in
    let elsewhere : (q == k.gt_current) ≡ false = ground (arith, next_slot-eq p h) in
    let rest = λ (k1 : Kernel) (on : Onward k k1 q). Pass-step h (omega arith) on (
      round_robin_prio-Pass d rounds k1 q (next_slot-lt p h) (omega arith) (omega arith)
        (after-next_slot p (suc d) h ∙ e ∙ sym (current-same on.same))
        (λ x. awake (
          sym (state_of-same k.gt_current on.same)
          ∙ subst (λ c. state_of k1 c ≡ blocked) (current-same on.same) x))) in
    elim (Bool-cases (is_state (state_of k q) blocked)) [
      | inl shut ↦ rw shut (rest k (Onward-refl (eq-is_state _ _ shut)))
      | inr clear ↦
          rw clear (elim (Bool-cases (is_state (state_of k q) ready && is_due (k.gt_table q))) [
            | inl pick ↦ rw pick (Pass-stop h 0 refl (inl (ground arith)))
            | inr no_pick ↦ rw (no_pick, elsewhere) (rest _ (Onward-skip k q no_pick))
          ])
    ]
