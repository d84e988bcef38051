-- ===== src/Scheduler/Policy/Tests.antt =====
-- The theorems at tables of three threads.
use ivos.Base.{◌≡◌, refl, true, arith, done}
use ivos.Scheduler.Demo.{three}
use ivos.Scheduler.Thread.{running, ready, blocked, by_round_robin, Kernel}
use ivos.Scheduler.Policy.{round_robin}
use ivos.Scheduler.Policy.RoundRobin.{round_robin-first}

abbrev busy : Kernel
busy = three by_round_robin running blocked ready

abbrev alone : Kernel
alone = three by_round_robin running blocked blocked

abbrev stuck : Kernel
stuck = three by_round_robin blocked blocked blocked

skips_blocked : round_robin 5 busy 0 ≡ done (2, true)
unfolding round_robin
skips_blocked = refl

round_robin-first_example : round_robin 5 busy 0 ≡ done (2, true)
round_robin-first_example =
    round_robin-first busy 2 5 (omega arith) (omega arith) (omega arith)
      (record { is_ready = refl; none_before = λ e l r. ground arith })
