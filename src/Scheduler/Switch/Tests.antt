-- ===== src/Scheduler/Switch/Tests.antt =====
-- The theorems at runs of the scheduler.
use ivos.Base.{◌≡◌, ◌≢◌, refl, true, if◌then◌else◌, ◌==◌, arith, done, [], ◌∷◌}
use ivos.Scheduler.Demo.{time, three}
use ivos.Scheduler.Thread.{
  running, ready, blocked, by_round_robin, by_priority, unused, Kernel, set_thread,
}
use ivos.Scheduler.Policy.{round_robin, call_next_thread}
use ivos.Scheduler.Switch.{
  gt_switch, gt_reset_sig, Inputs, switch_to, gt_schedule, yield_current, discard_current,
  gt_return, exits,
}
use ivos.Scheduler.Switch.Running.{Ran, gt_schedule-Ran}
use ivos.Scheduler.Switch.Exit.{gt_return-never_exits}
use ivos.Scheduler.Account.{update_thread_state, change_state}
use ivos.Scheduler.Switch.Waiting.{InLine, PickedWithin, gt_schedule-PickedWithin}
use ivos.Scheduler.Switch.Registers.{begins, works, gt_schedule-resumes}

abbrev at : Inputs
at = record { random = 0; ready_at = time 0 500; running_at = time 0 501 }

abbrev pair : Kernel
pair = three by_round_robin running ready blocked

abbrev after_search : Kernel
after_search = switch_to at 1 (gt_reset_sig pair)

gt_schedule-Ran_example : Ran pair after_search true
unfolding gt_schedule call_next_thread round_robin gt_reset_sig
gt_schedule-Ran_example =
    gt_schedule-Ran 5 at pair after_search true
      (record { within = omega arith; others = λ j l ne r. ground arith }) refl

gt_return-never_exits_example :
    gt_return 1 5 at ((at, λ k. pair) ∷ (at, λ k. pair) ∷ []) pair ≢ done (exits 1)
gt_return-never_exits_example =
    gt_return-never_exits 1 1 5 at ((at, λ k. pair) ∷ (at, λ k. pair) ∷ []) pair (omega arith)
      ((λ k. omega arith), ((λ k. omega arith), tt))

-- The second thread is current, its stack at 4096.
abbrev leaving : Kernel
leaving =
    let k = three by_round_robin ready running blocked in
    record (set_thread 1 (record (k.gt_table 1) { ctx = record (k.gt_table 1).ctx { rsp = 5000 } })
      k) { gt_current = 1 }

abbrev after_leaving : Kernel
after_leaving = switch_to at 0 (gt_reset_sig (discard_current leaving))

-- The initial thread is switched away from; the second one uses the registers, and is switched away
-- from in its turn.
abbrev calling : Kernel
calling = record pair {
  cpu = record pair.cpu { rsp = 7000; rbx = 5 };
  memory = λ a. if a == 7000 then 42 else 0;
}

abbrev second_runs : Kernel
second_runs = switch_to at 1 (gt_reset_sig calling)

abbrev second_calls : Kernel
second_calls = record second_runs { cpu = record second_runs.cpu { rsp = 9000; rbx = 8 } }

abbrev back_again : Kernel
back_again = switch_to at 0 (gt_reset_sig second_calls)

calling-second : gt_schedule 5 at calling ≡ done (second_runs, true)
unfolding gt_schedule call_next_thread round_robin gt_reset_sig
calling-second = refl

second-calling : gt_schedule 5 at second_calls ≡ done (back_again, true)
unfolding gt_schedule call_next_thread round_robin gt_reset_sig switch_to gt_switch yield_current
    update_thread_state change_state
second-calling = refl

gt_schedule-resumes_example :
    (back_again.cpu ≡ record calling.cpu { rsp = 7008 }) × (back_again.rip ≡ 42)
unfolding switch_to gt_switch
gt_schedule-resumes_example =
    gt_schedule-resumes 5 5 at at calling second_runs second_calls back_again true true
      (omega arith) calling-second (λ e. cc) (works begins second_calls refl refl refl)
      second-calling refl

-- The current thread is blocked, and thread 2, whose priority is 10, lacks ten skips.
abbrev in_line : Kernel
in_line = three by_priority blocked unused ready

in_line-InLine : InLine 2 in_line
in_line-InLine = record {
  chosen = refl;
  within = omega arith;
  in_table = omega arith;
  elsewhere = λ e. ground arith;
  is_ready = refl;
}

gt_schedule-PickedWithin_example : PickedWithin 60 2 52 in_line
gt_schedule-PickedWithin_example =
    gt_schedule-PickedWithin 60 2 in_line in_line-InLine (omega arith)
