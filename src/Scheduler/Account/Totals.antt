-- ===== src/Scheduler/Account/Totals.antt =====
-- Where the time of a thread goes.
use ivos.Base.{
  ℕ, ℤ, ◌≡◌, ◌≢◌, refl, sym, ◌∙◌, ◌+ℤ◌, ◌-ℤ◌, int_laws, arith, inl, inr, List, [], ◌∷◌, Bool-cases,
}
use ivos.Scheduler.Time.{Timeval, timeval_subtract, microseconds}
use ivos.Scheduler.Time.Laws.{microseconds-add, microseconds-subtract}
use ivos.Scheduler.Thread.{State, unused, running, ready, blocked, is_state, Gt, Kernel, state_of}
use ivos.Scheduler.Account.{account, change_state, update_thread_state}

-- Running and waiting time together are the time since `start`, in microseconds.
abbrev pub IsAccounted : ℤ → Gt → Type 0
IsAccounted start t =
    microseconds t.total_running +ℤ microseconds t.total_waiting
    ≡ microseconds t.last_state_change -ℤ start

account-total :
    (s : State) (elapsed : Timeval) (t : Gt)
    → s ≢ unused
    → microseconds (account s elapsed t).total_running
        +ℤ microseconds (account s elapsed t).total_waiting
      ≡ microseconds t.total_running +ℤ microseconds t.total_waiting +ℤ microseconds elapsed
unfolding account
account-total unused elapsed t live = absurd (live refl)
account-total running elapsed t live = rw microseconds-add (omega int_laws)
account-total ready elapsed t live = rw microseconds-add (omega int_laws)
account-total blocked elapsed t live = rw microseconds-add (omega int_laws)

change_state-IsAccounted :
    (start : ℤ) (now : Timeval) (new : State) (t : Gt)
    → t.state ≢ unused
    → IsAccounted start t
    → IsAccounted start (change_state now new t)
unfolding change_state
change_state-IsAccounted start now new t live h = elim (Bool-cases (is_state t.state new)) [
  | inl same ↦ rw same h
  | inr other ↦ rw other (
      account-total t.state (timeval_subtract now t.last_state_change) t live
      ∙ rw (microseconds-subtract, h) (omega int_laws))
]

pub state-change_state :
    (now : Timeval) (new : State) (t : Gt) → (change_state now new t).state ≡ new
unfolding change_state
state-change_state now new t = ground arith

-- The changes of state that a thread goes through, with the time of each.
abbrev pub change_states : Gt → List (Timeval × State) → Gt
change_states t [] = t
change_states t ((now, new) ∷ rest) = change_states (change_state now new t) rest

abbrev pub AllLive : List (Timeval × State) → Type 0
AllLive [] = Unit
AllLive ((now, new) ∷ rest) = (new ≢ unused) × AllLive rest

-- Through any changes of state that do not leave the thread unused, at any times, running and
-- waiting time together stay the time since `start`: no period is lost or counted twice.
pub change_states-IsAccounted :
    (start : ℤ) (changes : List (Timeval × State)) (t : Gt)
    → t.state ≢ unused
    → AllLive changes
    → IsAccounted start t
    → IsAccounted start (change_states t changes)
change_states-IsAccounted start [] t live all h = h
change_states-IsAccounted start ((now, new) ∷ rest) t live all h =
    change_states-IsAccounted start rest (change_state now new t)
      (λ e. all.0 (sym (state-change_state now new t) ∙ e)) all.1
      (change_state-IsAccounted start now new t live h)

-- `update_thread_state` writes to the one slot only, leaves there the new state, and keeps the
-- signal mask and all else but the table.
pub update_thread_state-frame :
    (now : Timeval) (i : ℕ) (new : State) (k : Kernel)
    → (state_of (update_thread_state now i new k) i ≡ new)
      × ((j : ℕ) → j ≢ i → (update_thread_state now i new k).gt_table j ≡ k.gt_table j)
      × (update_thread_state now i new k
          ≡ record k { gt_table = (update_thread_state now i new k).gt_table })
unfolding update_thread_state
update_thread_state-frame now i new k =
    (ground (arith, state-change_state now new (k.gt_table i)), λ j n. ground arith, refl)
