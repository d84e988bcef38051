-- ===== src/Scheduler/Account/Fixed.antt =====
-- What no change of state touches.
use ivos.Base.{ℕ, ◌≡◌, refl, inl, inr, Bool-cases, ℕ_discrete, ap, sym, ◌∙◌, eq→==}
use ivos.Scheduler.Time.{Timeval, timeval_subtract}
use ivos.Scheduler.Thread.{State, unused, running, ready, blocked, is_state, Context, Gt, Kernel}
use ivos.Scheduler.Account.{account, change_state, update_thread_state}
use ivos.Scheduler.Account.Totals.{update_thread_state-frame}

-- The saved registers, the priority and the skip count.
abbrev pub fixed : Gt → Context × ℕ × ℕ
fixed t = (t.ctx, t.priority, t.skip_count)

fixed-account : (s : State) (elapsed : Timeval) (t : Gt) → fixed (account s elapsed t) ≡ fixed t
unfolding account
fixed-account running elapsed t = refl
fixed-account ready elapsed t = refl
fixed-account blocked elapsed t = refl
fixed-account unused elapsed t = refl

fixed-change_state :
    (now : Timeval) (new : State) (t : Gt) → fixed (change_state now new t) ≡ fixed t
unfolding change_state
fixed-change_state now new t = elim (Bool-cases (is_state t.state new)) [
  | inl same ↦ rw same refl
  | inr other ↦ rw other (fixed-account t.state (timeval_subtract now t.last_state_change) t)
]

pub fixed-update_thread_state :
    (now : Timeval) (i j : ℕ) (new : State) (k : Kernel)
    → fixed ((update_thread_state now i new k).gt_table j) ≡ fixed (k.gt_table j)
unfolding update_thread_state
fixed-update_thread_state now i j new k = elim (ℕ_discrete j i) [
  | yes e ↦
      rw (eq→== j i e)
        (fixed-change_state now new (k.gt_table i) ∙ ap (λ n. fixed (k.gt_table n)) (sym e))
  | no ne ↦ ap fixed ((update_thread_state-frame now i new k).1 j ne)
]
