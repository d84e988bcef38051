-- ===== src/Scheduler/Create/FirstRun.antt =====
-- The first switch to a new thread.
use ivos.Base.{ℕ, ◌+◌, ◌-◌, ◌^◌, ◌<◌, ◌≡◌, ◌≢◌, refl, ◌∙◌, arith}
use ivos.Scheduler.Time.{Timeval}
use ivos.Scheduler.Thread.{State, ready, Kernel, Gt, stack_size, u64}
use ivos.Scheduler.Account.{change_state, account}
use ivos.Scheduler.Switch.{gt_switch}
use ivos.Scheduler.Create.{Request, new_thread, push_start, fill_slot}

ctx-change_state : (now : Timeval) (new : State) (t : Gt) → (change_state now new t).ctx ≡ t.ctx
unfolding change_state account
ctx-change_state now new t = ground arith

-- The registers of the slot, the memory and the other slots after `gt_create`.
rsp-fill_slot :
    (r : Request) (p : ℕ) (k : Kernel)
    → ((fill_slot r p k).gt_table p).ctx.rsp ≡ u64 (r.stack + (stack_size - 16))
unfolding fill_slot
rsp-fill_slot r p k =
    ground (arith, ctx-change_state r.ready_at ready (new_thread r k.total_tickets (k.gt_table p)))

memory-fill_slot :
    (r : Request) (p : ℕ) (k : Kernel) → (fill_slot r p k).memory ≡ push_start r k.memory
unfolding fill_slot
memory-fill_slot r p k = refl

push_start-function :
    (r : Request) (memory : ℕ → ℕ)
    → push_start r memory (u64 (r.stack + (stack_size - 16))) ≡ r.function
unfolding push_start
push_start-function r memory = ground arith

push_start-stop :
    (r : Request) (memory : ℕ → ℕ)
    → r.stack + stack_size < 2 ^ 64
    → push_start r memory (u64 (u64 (r.stack + (stack_size - 16)) + 8)) ≡ r.stop
unfolding push_start
push_start-stop r memory fits =
    let e : u64 (u64 (r.stack + (stack_size - 16)) + 8) ≡ u64 (r.stack + (stack_size - 8)) =
      omega arith in
    let ne : u64 (r.stack + (stack_size - 8)) ≢ u64 (r.stack + (stack_size - 16)) = omega arith in
    rw e (ground (arith, ne))

gt_switch-other :
    (old p : ℕ) (k : Kernel)
    → old ≢ p
    → let k' = gt_switch old p k in
      (k'.rip ≡ k.memory (k.gt_table p).ctx.rsp)
      × (k'.memory ≡ k.memory)
      × (k'.cpu.rsp ≡ u64 ((k.gt_table p).ctx.rsp + 8))
unfolding gt_switch
gt_switch-other old p k ne = (ground arith, refl, ground arith)

-- Switching from another slot to a thread that `gt_create` has just made enters its function, with
-- the address of `gt_stop` on top of the stack, where the function will return.
gt_create-first_run :
    (r : Request) (old p : ℕ) (k : Kernel)
    → old ≢ p
    → r.stack + stack_size < 2 ^ 64
    → let k' = gt_switch old p (fill_slot r p k) in
      (k'.rip ≡ r.function) × (k'.memory k'.cpu.rsp ≡ r.stop)
gt_create-first_run r old p k ne fits =
    let (a, b, c) = gt_switch-other old p (fill_slot r p k) ne in
    (
      a ∙ rw (rsp-fill_slot, memory-fill_slot) (push_start-function r k.memory),
      rw (b, c, rsp-fill_slot, memory-fill_slot) (push_start-stop r k.memory fits),
    )
