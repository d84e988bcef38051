-- ===== src/Scheduler/Main/Tests.antt =====
-- `main` with the round robin chosen last.
use ivos.Base.{◌≡◌, refl, [], ◌∷◌, codes, some}
use ivos.Scheduler.Demo.{setting, setting-HasStacks}
use ivos.Scheduler.Thread.{by_round_robin, boot}
use ivos.Scheduler.Policy.{set_scheduling_algorithm}
use ivos.Scheduler.Main.{exit_of, begin, goes_on, prints_usage, unknown_argument, start_threads}
use ivos.Scheduler.Main.Threads.{IsTable, start_threads-IsTable}

usage : begin [] boot ≡ prints_usage
unfolding begin
usage = refl

refused :
    exit_of (codes "gthr") (begin (codes "-rr" ∷ codes "-x" ∷ []) boot)
    ≡ some (codes "Unknown argument: -x" ∷ codes "Use -h or --help for usage information" ∷ [], 1)
unfolding begin
refused = refl

chosen :
    begin (codes "-lot" ∷ codes "--round-robin" ∷ []) boot
    ≡ goes_on (set_scheduling_algorithm by_round_robin boot)
unfolding begin set_scheduling_algorithm
chosen = refl

unknown : begin (codes "-rr" ∷ codes "-x" ∷ []) boot ≡ unknown_argument (codes "-x")
unfolding begin
unknown = refl

start_threads-IsTable_example :
    IsTable (start_threads setting (set_scheduling_algorithm by_round_robin boot))
start_threads-IsTable_example = start_threads-IsTable setting by_round_robin setting-HasStacks
