-- ===== src/Scheduler/Switch/Exit.antt =====
-- What becomes of threads that return.
use ivos.Base.{
  ℕ, ◌+◌, ◌<◌, ◌≤◌, ◌^◌, ◌≡◌, ◌≢◌, Bool, true, false, refl, ◌∙◌, subst, ap, arith, Outcome, done,
  fault, runs_on, ◌>>=◌, List, [], ◌∷◌, ◌==◌, Bool-cases, inl, inr, if◌then◌else◌,
}
use ivos.Scheduler.Thread.{unused, Kernel, state_of, u64}
use ivos.Scheduler.Switch.{
  Inputs, gt_schedule, wait_for_others, gt_return, exits, switched, Ending, discard_current,
  switch_to, gt_switch, yield_current, gt_reset_sig,
}
use ivos.Scheduler.Switch.Running.{gt_schedule-Scheduled, current-switch_to, state-Scheduled}
use ivos.Scheduler.Account.{update_thread_state}

-- What the other threads do leaves the current slot in the table.
abbrev pub InTable : List (Inputs × (Kernel → Kernel)) → Type 0
InTable [] = Unit {0}
InTable ((x, others) ∷ rest) = ((k : Kernel) → (others k).gt_current < 5) × InTable rest

-- The loop of the initial thread never ends, whatever the others do.
pub wait_for_others-never :
    (rounds : ℕ) (schedule : List (Inputs × (Kernel → Kernel))) (k k' : Kernel)
    → k.gt_current < 5
    → InTable schedule
    → wait_for_others rounds schedule k ≢ done k'
unfolding wait_for_others
wait_for_others-never rounds [] k k' l stay e = cc
wait_for_others-never rounds ((x, others) ∷ rest) k k' l stay e =
    go (gt_schedule rounds x k)
      (λ k1 b run. (gt_schedule-Scheduled rounds x k k1 b l run).returns_true)
      (λ k1. wait_for_others-never rounds rest (others k1) k' (stay.0 k1) stay.1) e
  where
    go :
        (run : Outcome (Kernel × Bool))
        → ((k1 : Kernel) (b : Bool) → run ≡ done (k1, b) → b ≡ true)
        → ((k1 : Kernel) → wait_for_others rounds rest (others k1) ≢ done k')
        → (run >>= λ r. if r.1 then wait_for_others rounds rest (others r.0) else done r.0)
          ≡ done k'
        → ⊥
    go (done (k1, true)) t ih e' = ih k1 e'
    go (done (k1, false)) t ih e' = cc (t k1 false refl)
    go fault t ih e' = cc
    go runs_on t ih e' = cc

-- `gt_return` never reaches `exit`: neither for the initial thread, whose loop does not end, nor for
-- another thread.
pub gt_return-never_exits :
    (ret code rounds : ℕ) (x : Inputs) (schedule : List (Inputs × (Kernel → Kernel))) (k : Kernel)
    → k.gt_current < 5
    → InTable schedule
    → gt_return ret rounds x schedule k ≢ done (exits code)
unfolding gt_return
gt_return-never_exits ret code rounds x schedule k l stay e =
    elim (Bool-cases (k.gt_current == 0)) [
      | inl initial ↦
          loop (wait_for_others rounds schedule k)
            (λ k'. wait_for_others-never rounds schedule k k' l stay) (rw initial at e)
      | inr other ↦ leave (gt_schedule rounds x (discard_current k)) (rw other at e)
    ]
  where
    loop :
        (run : Outcome Kernel)
        → ((k' : Kernel) → run ≢ done k')
        → ◌≡◌ {A = Outcome Ending} (run >>= λ _. done (exits ret)) (done (exits code))
        → ⊥
    loop (done k') never e' = never k' refl
    loop fault never e' = cc
    loop runs_on never e' = cc

    leave :
        (run : Outcome (Kernel × Bool))
        → ◌≡◌ {A = Outcome Ending}
            (run >>= λ r. if r.0.gt_current == k.gt_current then fault else done (switched r.0))
            (done (exits code))
        → ⊥
    leave (done (k', b)) e' = ground arith
    leave fault e' = cc
    leave runs_on e' = cc

freed-switch_to : (x : Inputs) (p : ℕ) (k : Kernel) → (switch_to x p k).freed ≡ k.freed
unfolding switch_to gt_switch yield_current update_thread_state
freed-switch_to x p k = ground arith

switched-injective :
    {k k' : Kernel} → ◌≡◌ {A = Outcome Ending} (done (switched k)) (done (switched k')) → k ≡ k'
switched-injective e = cc

-- How a thread other than the initial one leaves.
pub record Left (k k' : Kernel) : Type 0 where
  pub elsewhere : k'.gt_current ≢ k.gt_current
  pub slot_unused : state_of k' k.gt_current ≡ unused
  pub freed : k'.freed ≡ u64 ((k.gt_table k.gt_current).ctx.rsp + 16) ∷ k.freed

Left-of :
    (rounds : ℕ) (x : Inputs) (k k' : Kernel) (b : Bool)
    → k.gt_current < 5
    → gt_schedule rounds x (discard_current k) ≡ done (k', b)
    → k'.gt_current ≢ k.gt_current
    → Left k k'
unfolding discard_current gt_reset_sig
Left-of rounds x k k' b l e ne =
    let s = gt_schedule-Scheduled rounds x (discard_current k) k' b l e in
    let c : k'.gt_current ≡ s.next =
      ap (λ (r : Kernel). r.gt_current) s.result ∙ current-switch_to x s.next s.searched in
    record {
      elsewhere = ne;
      slot_unused = ground (arith, state-Scheduled s k.gt_current, c);
      freed =
          ap (λ (r : Kernel). r.freed) s.result
          ∙ freed-switch_to x s.next s.searched
          ∙ ap (λ (r : Kernel). r.freed) s.same.rest;
    }

-- If `gt_return` of a thread other than the initial one ends with a switch, another thread has control
-- and the slot is unused; `free` was given the address 16 above the stack pointer of the last switch,
-- which is not the address of the stack that this pointer lies in.
pub gt_return-leaves :
    (ret rounds : ℕ) (x : Inputs) (schedule : List (Inputs × (Kernel → Kernel))) (k k' : Kernel)
    (stack : ℕ)
    → k.gt_current < 5
    → k.gt_current ≢ 0
    → stack ≤ (k.gt_table k.gt_current).ctx.rsp
    → (k.gt_table k.gt_current).ctx.rsp + 16 < 2 ^ 64
    → gt_return ret rounds x schedule k ≡ done (switched k')
    → Left k k' × (u64 ((k.gt_table k.gt_current).ctx.rsp + 16) ≢ stack)
unfolding gt_return
gt_return-leaves ret rounds x schedule k k' stack l other low fits e =
    let away : (k.gt_current == 0) ≡ false = ground arith in
    (
      leave (gt_schedule rounds x (discard_current k)) (λ k1 b run. Left-of rounds x k k1 b l run)
          (rw away at e),
      λ same. omega arith,
    )
  where
    leave :
        (run : Outcome (Kernel × Bool))
        → ((k1 : Kernel) (b : Bool) → run ≡ done (k1, b) → k1.gt_current ≢ k.gt_current → Left k k1)
        → ◌≡◌ {A = Outcome Ending}
            (run >>= λ r. if r.0.gt_current == k.gt_current then fault else done (switched r.0))
            (done (switched k'))
        → Left k k'
    leave (done (k1, b)) lemma e' = elim (Bool-cases (k1.gt_current == k.gt_current)) [
      | inl back ↦ absurd (ground arith)
      | inr gone ↦
          let same : k1 ≡ k' = switched-injective (rw gone at e') in
          subst (Left k) same (lemma k1 b refl (ground arith))
    ]
    leave fault lemma e' = absurd (cc)
    leave runs_on lemma e' = absurd (cc)
