-- ===== src/Scheduler/Switch/Waiting.antt =====
-- How long a ready thread waits under `round_robin_prio`.
use ivos.Base.{
  ℕ, zero, suc, ◌<◌, ◌≤◌, ◌≡◌, ◌≢◌, ◌⊎◌, inl, inr, Bool, true, refl, sym, ap, ◌∙◌, subst, ◌||◌,
  Bool-cases, ne→==, arith, some, done, Outcome, ◌>>=◌, if◌then◌else◌, not, false,
}
use ivos.Scheduler.Time.{Timeval}
use ivos.Scheduler.Thread.{
  State, unused, running, ready, blocked, is_state, by_priority, Kernel, state_of,
}
use ivos.Scheduler.Account.{update_thread_state}
use ivos.Scheduler.Account.Totals.{update_thread_state-frame}
use ivos.Scheduler.Account.Fixed.{fixed-update_thread_state}
use ivos.Scheduler.Policy.{round_robin_prio, call_next_thread}
use ivos.Scheduler.Policy.Aging.{wait_bound, Nears, round_robin_prio-Nears}
use ivos.Scheduler.Switch.{gt_switch, gt_reset_sig, Inputs, yield_current, switch_to, gt_schedule}
use ivos.Scheduler.Switch.Running.{gt_schedule-Scheduled, state-Scheduled, current-switch_to}

-- Thread `t` is ready and another one is current, be it blocked or not.
pub record InLine (t : ℕ) (k : Kernel) : Type 0 where
  pub chosen : k.get_next_thread ≡ some by_priority
  pub within : k.gt_current < 5
  pub in_table : t < 5
  pub elsewhere : t ≢ k.gt_current
  pub is_ready : state_of k t ≡ ready

-- The algorithm, and the priority and the skip count of thread `t`, are kept.
pub record Keeps (t : ℕ) (k k' : Kernel) : Type 0 where
  pub algorithm : k'.get_next_thread ≡ k.get_next_thread
  pub priority : (k'.gt_table t).priority ≡ (k.gt_table t).priority
  pub skips : (k'.gt_table t).skip_count ≡ (k.gt_table t).skip_count

-- What the current thread may do before the next call: anything that leaves it current, and leaves
-- thread `t` ready. It may be blocked itself.
pub record Leaves (t : ℕ) (k k' : Kernel) : Type 0 where
  pub kept : Keeps t k k'
  pub current : k'.gt_current ≡ k.gt_current
  pub state : state_of k' t ≡ state_of k t

-- Whatever `rand` and the clock give to gt_schedule, and whatever the threads that it switches to do
-- in between: each call returns, and one of the next `n` calls makes thread `t` current.
abbrev pub PickedWithin : (rounds t n : ℕ) → Kernel → Type 0
PickedWithin rounds t zero k = ⊥
PickedWithin rounds t (suc n) k =
    (x : Inputs)
    → (k' : Kernel) × (gt_schedule rounds x k ≡ done (k', true))
      × ((k'.gt_current ≡ t) ⊎ ((k'' : Kernel) → Leaves t k' k'' → PickedWithin rounds t n k''))

Keeps-trans : {t : ℕ} {k k' k'' : Kernel} → Keeps t k k' → Keeps t k' k'' → Keeps t k k''
Keeps-trans a b = record {
  algorithm = b.algorithm ∙ a.algorithm;
  priority = b.priority ∙ a.priority;
  skips = b.skips ∙ a.skips;
}

wait_bound-Keeps :
    {t : ℕ} {k k' : Kernel} (p : ℕ)
    → Keeps t k k'
    → wait_bound (k'.gt_table t) p t ≡ wait_bound (k.gt_table t) p t
wait_bound-Keeps p kept = rw (kept.priority, kept.skips) refl

update_thread_state-Keeps :
    (now : Timeval) (i t : ℕ) (new : State) (k : Kernel)
    → Keeps t k (update_thread_state now i new k)
update_thread_state-Keeps now i t new k =
    let same = fixed-update_thread_state now i t new k in
    record {
      algorithm = ap (λ (r : Kernel). r.get_next_thread) (update_thread_state-frame now i new k).2;
      priority = ap (λ f. f.1) same;
      skips = ap (λ f. f.2) same;
    }

yield_current-Keeps : (now : Timeval) (t : ℕ) (k : Kernel) → Keeps t k (yield_current now k)
unfolding yield_current
yield_current-Keeps now t k =
    let old = state_of k k.gt_current in
    elim (Bool-cases (is_state old unused || is_state old blocked)) [
      | inl stays ↦ rw stays (record { algorithm = refl; priority = refl; skips = refl })
      | inr moves ↦ rw moves (update_thread_state-Keeps now k.gt_current t ready k)
    ]

gt_switch-Keeps : (a b t : ℕ) (k : Kernel) → Keeps t k (gt_switch a b k)
unfolding gt_switch
gt_switch-Keeps a b t k = record { algorithm = refl; priority = ground arith; skips = ground arith }

switch_to-Keeps : (x : Inputs) (p t : ℕ) (k : Kernel) → Keeps t k (switch_to x p k)
unfolding switch_to
switch_to-Keeps x p t k =
    let yielded = yield_current x.ready_at k in
    let started = update_thread_state x.running_at p running yielded in
    let at : Kernel = record started { gt_current = p } in
    let moved : Keeps t started at = record { algorithm = refl; priority = refl; skips = refl } in
    Keeps-trans
      (Keeps-trans (yield_current-Keeps x.ready_at t k)
        (update_thread_state-Keeps x.running_at p t running yielded))
      (Keeps-trans moved (gt_switch-Keeps k.gt_current p t at))

InLine-Leaves : {t : ℕ} {k k' : Kernel} → InLine t k → Leaves t k k' → InLine t k'
InLine-Leaves v left = record {
  chosen = left.kept.algorithm ∙ v.chosen;
  within = rw left.current v.within;
  in_table = v.in_table;
  elsewhere = λ e. v.elsewhere (e ∙ left.current);
  is_ready = left.state ∙ v.is_ready;
}

wait_bound-Leaves :
    {t : ℕ} {k k' : Kernel}
    → Leaves t k k'
    → wait_bound (k'.gt_table t) k'.gt_current t ≡ wait_bound (k.gt_table t) k.gt_current t
wait_bound-Leaves left = rw (left.kept.priority, left.kept.skips, left.current) refl

-- What one call does for `t`.
record Call (rounds t : ℕ) (x : Inputs) (k : Kernel) : Type 0 where
  after : Kernel
  returns : gt_schedule rounds x k ≡ done (after, true)
  nearer :
      (after.gt_current ≡ t)
      ⊎ (InLine t after
          × (wait_bound (after.gt_table t) after.gt_current t
              < wait_bound (k.gt_table t) k.gt_current t))

gt_schedule-searches :
    (rounds t : ℕ) (x : Inputs) (k : Kernel)
    → k.get_next_thread ≡ some by_priority
    → (n : Nears
        (gt_reset_sig k)
        k.gt_current
        t
        (round_robin_prio rounds (gt_reset_sig k) k.gt_current))
    → gt_schedule rounds x k ≡ done (switch_to x n.next n.table, true)
unfolding gt_schedule gt_reset_sig call_next_thread
gt_schedule-searches rounds t x k chosen n =
    let start = gt_reset_sig k in
    ap (λ a. call_next_thread a rounds x.random start k.gt_current >>= go_on) chosen
    ∙ ap (λ r. r >>= go_on) n.ends
  where
    go_on : Kernel × ℕ × Bool → Outcome (Kernel × Bool)
    go_on (k', p, found) = if not found then done (k', false) else done (switch_to x p k', true)

gt_schedule-Call :
    (rounds t : ℕ) (x : Inputs) (k : Kernel)
    → InLine t k
    → wait_bound (k.gt_table t) k.gt_current t ≤ rounds
    → Call rounds t x k
unfolding gt_reset_sig
gt_schedule-Call rounds t x k v bound =
    let n =
      round_robin_prio-Nears t v.in_table rounds (gt_reset_sig k) k.gt_current v.within v.elsewhere
        v.is_ready bound in
    let k' = switch_to x n.next n.table in
    let returns = gt_schedule-searches rounds t x k v.chosen n in
    let there = current-switch_to x n.next n.table in
    let kept = switch_to-Keeps x n.next t n.table in
    let s = gt_schedule-Scheduled rounds x k k' true v.within returns in
    record {
      after = k';
      returns = returns;
      nearer = elim n.nearer [
        | inl e ↦ inl (there ∙ e)
        | inr (ne, less) ↦ inr (
          record {
            chosen = kept.algorithm ∙ ap (λ (r : Kernel). r.get_next_thread) n.same.rest ∙ v.chosen;
            within = subst (λ c. c < 5) (sym there) n.within;
            in_table = v.in_table;
            elsewhere = λ e. ne (sym (e ∙ there));
            is_ready =
                let next : s.next ≡ n.next =
                  sym (
                    ap (λ (r : Kernel). r.gt_current) s.result
                    ∙ current-switch_to x s.next s.searched)
                  ∙ there in
                state-Scheduled s t
                ∙ rw (ne→== t s.next (λ e. ne (sym (e ∙ next))), ne→== t k.gt_current v.elsewhere)
                    v.is_ready;
          },
          subst (λ c. wait_bound (k'.gt_table t) c t < wait_bound (k.gt_table t) k.gt_current t)
              (sym there)
              (subst (λ w. w < wait_bound (k.gt_table t) k.gt_current t)
                (sym (wait_bound-Keeps n.next kept)) less),
        )
      ];
    }

-- Thread `t` is ready, another is current, whatever its state, and round_robin_prio is used, with as many
-- rounds as the bound: as long as what happens between the calls of gt_schedule leaves the current
-- thread current, and `t` ready with its priority and its skip count, every call returns, and one of
-- the next calls, at most as many as the bound, makes `t` current. The bound is five for each skip
-- that `t` lacks to its priority, and the places from the current thread to `t`.
pub gt_schedule-PickedWithin :
    (rounds t : ℕ) (k : Kernel)
    → InLine t k
    → wait_bound (k.gt_table t) k.gt_current t ≤ rounds
    → PickedWithin rounds t (wait_bound (k.gt_table t) k.gt_current t) k
gt_schedule-PickedWithin rounds t k v bound =
    within (wait_bound (k.gt_table t) k.gt_current t) k v (omega arith) bound
  where
    within :
        (n : ℕ) (k : Kernel)
        → InLine t k
        → wait_bound (k.gt_table t) k.gt_current t ≤ n
        → wait_bound (k.gt_table t) k.gt_current t ≤ rounds
        → PickedWithin rounds t n k
    within zero k v le bound = absurd (omega arith)
    within (suc n) k v le bound = λ x.
        let call = gt_schedule-Call rounds t x k v bound in
        (
          call.after,
          call.returns,
          elim call.nearer [
            | inl e ↦ inl e
            | inr (v', less) ↦ inr λ k'' left.
                within n k'' (InLine-Leaves v' left) (omega (arith, wait_bound-Leaves left, less))
                  (omega (arith, wait_bound-Leaves left, less))
          ],
        )
