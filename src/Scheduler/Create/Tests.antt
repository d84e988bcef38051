-- ===== src/Scheduler/Create/Tests.antt =====
-- The theorems at the first threads of the program.
use ivos.Base.{pos}
use ivos.Scheduler.Demo.{time}
use ivos.Scheduler.Thread.{Kernel, boot}
use ivos.Scheduler.Create.{gt_init, gt_create, Request}
use ivos.Scheduler.Create.Tickets.{TicketsValid, gt_create-TicketsValid, gt_init-TicketsValid}

abbrev request : Request
request = record {
  stop = 77;
  function = 99;
  priority = pos 3;
  stack = 4096;
  created = time 0 1;
  changed = time 0 2;
  ready_at = time 0 3;
}

abbrev begun : Kernel
begun = gt_init (time 0 0) (time 0 0) boot

gt_create-TicketsValid_example : TicketsValid (gt_create request begun).0
gt_create-TicketsValid_example =
    gt_create-TicketsValid request begun (gt_init-TicketsValid (time 0 0) (time 0 0))
