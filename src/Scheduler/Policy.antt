-- ===== src/Scheduler/Policy.antt =====
-- The scheduling algorithms of scheduler/gthr.c. `*thread` is the index `p`; each returns the new
-- `*thread`, the kernel where it writes to the table, and its Boolean result. The `while` loops of
-- the two round robins take a number of rounds, and `runs_on` says that these were used up.
mod Tests
pub mod Slots
pub mod Aging
pub mod Lottery
pub mod Pass
pub mod RoundRobin
use ivos.Base.{
  ℕ, zero, suc, ◌+◌, ◌%◌, Bool, true, ◌&&◌, ◌||◌, if◌then◌else◌, ◌==◌, leb, Outcome, done, fault,
  runs_on, ◌>>=◌, Option, none, some,
}
use ivos.Scheduler.Thread.{
  running, ready, blocked, is_state, max_g_threads, max_priority, Gt, Algorithm, by_round_robin,
  by_priority, by_lottery, Kernel, set_thread, state_of,
}

-- if (++p == &gt_table[MaxGThreads]) p = &gt_table[0];
abbrev pub next_slot : ℕ → ℕ
next_slot p = if (p + 1) == max_g_threads then 0 else p + 1

unfoldable pub round_robin : ℕ → Kernel → ℕ → Outcome (ℕ × Bool)
round_robin zero k p = runs_on
round_robin (suc rounds) k p =
    let q = next_slot p in
    let rest = round_robin rounds k q in
    if is_state (state_of k p) ready
    then done (p, true)
    else if is_state (state_of k q) blocked
    then rest
    else if q == k.gt_current
    then done (q, true)
    else rest

-- `priority - skip_count <= MaxPriority`, with `MaxPriority` 0.
abbrev pub is_due : Gt → Bool
is_due t = leb t.priority (max_priority + t.skip_count)

abbrev pub set_skip_count : ℕ → ℕ → Kernel → Kernel
set_skip_count i n k = set_thread i (record (k.gt_table i) { skip_count = n }) k

unfoldable pub round_robin_prio : ℕ → Kernel → ℕ → Outcome (Kernel × ℕ × Bool)
round_robin_prio zero k p = runs_on
round_robin_prio (suc rounds) k p =
    let q = next_slot p in
    let skipped = set_skip_count q ((k.gt_table q).skip_count + 1) k in
    let past_blocked = round_robin_prio rounds k q in
    let past_skipped = round_robin_prio rounds skipped q in
    if is_state (state_of k q) blocked
    then past_blocked
    else if is_state (state_of k q) ready && is_due (k.gt_table q)
    then done (set_skip_count q 0 k, q, true)
    else if q == k.gt_current
    then done (skipped, q, true)
    else past_skipped

abbrev pub holds_ticket : ℕ → Gt → Bool
holds_ticket ticket t =
    (is_state t.state ready || is_state t.state running)
    && (leb t.tickets_lo ticket && leb ticket t.tickets_hi)

-- The `for` loop of `lottery` from slot `p`, with the number of slots that are left.
unfoldable pub find_winner : ℕ → Kernel → ℕ → ℕ → Option ℕ
find_winner zero k ticket p = none
find_winner (suc left) k ticket p =
    let rest = find_winner left k ticket (p + 1) in
    if is_state (state_of k p) blocked
    then rest
    else if holds_ticket ticket (k.gt_table p)
    then some p
    else rest

-- `random` is what `rand` returns. A remainder by zero is a fault.
unfoldable pub lottery : ℕ → ℕ → Kernel → ℕ → Outcome (ℕ × Bool)
lottery rounds random k p =
    if k.total_tickets == 0
    then fault
    else elim (find_winner max_g_threads k (random % k.total_tickets) 0) [
      | some winner ↦ done (winner, true)
      | none ↦ round_robin rounds k p
    ]

unfoldable pub set_scheduling_algorithm : Algorithm → Kernel → Kernel
set_scheduling_algorithm algorithm k = record k { get_next_thread = some algorithm }

-- The call of `get_next_thread(&p)`; a call through the null pointer is a fault.
unfoldable pub call_next_thread :
    Option Algorithm → ℕ → ℕ → Kernel → ℕ → Outcome (Kernel × ℕ × Bool)
call_next_thread none rounds random k p = fault
call_next_thread (some by_round_robin) rounds random k p = do
  (q, found) ← round_robin rounds k p
  done (k, q, found)
call_next_thread (some by_priority) rounds random k p = round_robin_prio rounds k p
call_next_thread (some by_lottery) rounds random k p = do
  (q, found) ← lottery rounds random k p
  done (k, q, found)
