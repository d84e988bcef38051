-- ===== src/Scheduler/Main/Threads.antt =====
-- The thread table when `main` has created its threads.
use ivos.Base.{
  ℕ, ◌+◌, ◌<◌, ◌≤◌, pos, ◌≡◌, ◌≢◌, inl, inr, refl, ◌∙◌, ap, subst, sym, arith, ℤ, ℕ_discrete,
  dec_lt,
}
use ivos.Scheduler.Thread.{State, unused, running, ready, Algorithm, Kernel, boot, state_of}
use ivos.Scheduler.Account.{init_thread_stats}
use ivos.Scheduler.Account.Totals.{state-change_state}
use ivos.Scheduler.Policy.{set_scheduling_algorithm}
use ivos.Scheduler.Create.{Request, gt_init, fill_slot, new_thread, clamp}
use ivos.Scheduler.Create.Result.{gt_create-cases, FirstUnused}
use ivos.Scheduler.Create.Tickets.{
  new_tickets, others-fill_slot, TicketsValid, gt_create-TicketsValid, gt_init-TicketsValid,
}
use ivos.Scheduler.Main.{Setting, create, start_threads}

-- The slots up to `n` are in use, the others not.
record Filled (k : Kernel) (n : ℕ) : Type 0 where
  in_use : (j : ℕ) → j ≤ n → state_of k j ≢ unused
  free : (j : ℕ) → n < j → j < 5 → state_of k j ≡ unused

state-fill_slot : (r : Request) (p : ℕ) (k : Kernel) → state_of (fill_slot r p k) p ≡ ready
unfolding fill_slot new_thread
state-fill_slot r p k =
    let same = state-change_state r.ready_at ready (new_thread r k.total_tickets (k.gt_table p)) in
    ground (arith, same)

clamp-pos : (priority : ℕ) → priority ≤ 10 → clamp (pos priority) ≡ priority
unfolding clamp
clamp-pos priority le = ground arith

-- A thread's state and priority.
abbrev pub Holds : Kernel → (i : ℕ) → State → (priority : ℕ) → Type 0
Holds k i s priority = (state_of k i ≡ s) × ((k.gt_table i).priority ≡ priority)

-- One more thread, in the next slot.
record Next (k : Kernel) (n priority : ℕ) (k' : Kernel) : Type 0 where
  filled : Filled k' (n + 1)
  holds : Holds k' (n + 1) ready priority
  others : (j : ℕ) → j ≢ n + 1 → k'.gt_table j ≡ k.gt_table j

next_slot_lem : (k : Kernel) (n p : ℕ) → n < 4 → Filled k n → FirstUnused k p → n + 1 ≡ p
next_slot_lem k n p less f first = elim (dec_lt p (n + 1)) [
  | yes l ↦ absurd (f.in_use p (omega arith) first.is_unused)
  | no nl ↦ elim (dec_lt (n + 1) p) [
    | yes l ↦ absurd (first.first (n + 1) l (f.free (n + 1) (omega arith) (omega arith)))
    | no nl' ↦ omega arith
  ]
]

-- The state of a slot that is not filled.
state-others :
    (r : Request) (p j : ℕ) (k : Kernel) → j ≢ p → state_of (fill_slot r p k) j ≡ state_of k j
state-others r p j k ne = ap (λ t. t.state) (others-fill_slot r p j k ne)

in_use-fill_slot :
    (r : Request) (k : Kernel) (n j : ℕ)
    → Filled k n
    → j ≤ n + 1
    → state_of (fill_slot r (n + 1) k) j ≢ unused
in_use-fill_slot r k n j f l free_now = elim (ℕ_discrete j (n + 1)) [
  | yes e ↦
      let here = subst (λ i. state_of (fill_slot r (n + 1) k) i ≡ unused) e free_now in
      let made = state-fill_slot r (n + 1) k in cc
  | no ne ↦ f.in_use j (omega arith) (sym (state-others r (n + 1) j k ne) ∙ free_now)
]

fill_slot-Next :
    (r : Request) (k : Kernel) (n priority : ℕ)
    → priority ≤ 10
    → r.priority ≡ pos priority
    → Filled k n
    → Next k n priority (fill_slot r (n + 1) k)
fill_slot-Next r k n priority le wanted f = record {
  filled = record {
    in_use = λ j l. in_use-fill_slot r k n j f l;
    free =
        λ j l u. state-others r (n + 1) j k (λ e. absurd (omega arith)) ∙ f.free j (omega arith) u;
  };
  holds = (
    state-fill_slot r (n + 1) k,
    (new_tickets r (n + 1) k).0 ∙ ap clamp wanted ∙ clamp-pos priority le,
  );
  others = λ j ne. others-fill_slot r (n + 1) j k ne;
}

create-Next :
    (priority : ℕ) (r : Request) (k : Kernel) (n : ℕ)
    → priority ≤ 10
    → r.stack ≢ 0
    → n < 4
    → Filled k n
    → Next k n priority (create priority r k)
create-Next priority r k n le stack less f =
    let r' = record r { priority = pos priority } in
    elim (gt_create-cases r' k) [
      | inl (same, inl full) ↦
          absurd (full (n + 1) (omega arith) (f.free (n + 1) (omega arith) (omega arith)))
      | inl (same, inr no_stack) ↦ absurd (stack no_stack)
      | inr (p, first, has, filled) ↦
          let at : n + 1 ≡ p = next_slot_lem k n p less f first in
          subst (λ (x : Kernel × ℤ). Next k n priority x.0) (sym filled)
            (subst (λ q. Next k n priority (fill_slot r' q k)) at
              (fill_slot-Next r' k n priority le refl f))
    ]

gt_init-Filled :
    (x : Setting) (a : Algorithm)
    → Filled (gt_init x.created x.changed (set_scheduling_algorithm a boot)) 0
unfolding gt_init set_scheduling_algorithm init_thread_stats
gt_init-Filled x a = record { in_use = λ j l e. ground arith; free = λ j l u. ground arith }

gt_init-Holds :
    (x : Setting) (a : Algorithm)
    → Holds (gt_init x.created x.changed (set_scheduling_algorithm a boot)) 0 running 0
unfolding gt_init set_scheduling_algorithm init_thread_stats
gt_init-Holds x a = (refl, refl)

-- malloc gives all four stacks.
pub record HasStacks (x : Setting) : Type 0 where
  pub first : x.first.stack ≢ 0
  pub second : x.second.stack ≢ 0
  pub third : x.third.stack ≢ 0
  pub fourth : x.fourth.stack ≢ 0

-- What the later threads leave of an earlier one.
kept :
    (k k' : Kernel) (n priority i : ℕ) (s : State) (p : ℕ)
    → Next k n priority k'
    → i ≤ n
    → Holds k i s p
    → Holds k' i s p
kept k k' n priority i s p next l h =
    subst (λ t. (t.state ≡ s) × (t.priority ≡ p)) (sym (next.others i (λ e. absurd (omega arith))))
      h

-- The five slots.
pub record IsTable (k : Kernel) : Type 0 where
  pub initial : Holds k 0 running 0
  pub first : Holds k 1 ready 3
  pub second : Holds k 2 ready 0
  pub third : Holds k 3 ready 10
  pub fourth : Holds k 4 ready 6
  pub tickets : TicketsValid k

with_algorithm-TicketsValid :
    (x : Setting) (a : Algorithm)
    → TicketsValid (gt_init x.created x.changed boot)
    → TicketsValid (gt_init x.created x.changed (set_scheduling_algorithm a boot))
unfolding gt_init set_scheduling_algorithm
with_algorithm-TicketsValid x a v = record { ranges = v.ranges; apart = v.apart }

-- When malloc gives the stacks: `main` starts with all five slots in use, the initial thread running
-- and the four others ready, with the priorities that they were created with, and no two of them share
-- a ticket.
pub start_threads-IsTable :
    (x : Setting) (a : Algorithm)
    → HasStacks x
    → IsTable (start_threads x (set_scheduling_algorithm a boot))
unfolding start_threads
start_threads-IsTable x a h =
    let k0 = gt_init x.created x.changed (set_scheduling_algorithm a boot) in
    let k1 = create 3 x.first k0 in
    let k2 = create 0 x.second k1 in
    let k3 = create 10 x.third k2 in
    let k4 = create 6 x.fourth k3 in
    let n1 = create-Next 3 x.first k0 0 (omega arith) h.first (omega arith) (gt_init-Filled x a) in
    let n2 = create-Next 0 x.second k1 1 (omega arith) h.second (omega arith) n1.filled in
    let n3 = create-Next 10 x.third k2 2 (omega arith) h.third (omega arith) n2.filled in
    let n4 = create-Next 6 x.fourth k3 3 (omega arith) h.fourth (omega arith) n3.filled in
    let h0 = kept k0 k1 0 3 0 running 0 n1 (omega arith) (gt_init-Holds x a) in
    let later = λ (i : ℕ) (s : State) (p : ℕ) (l : i ≤ 2) (held : Holds k2 i s p).
      kept k3 k4 3 6 i s p n4 (omega arith) (kept k2 k3 2 10 i s p n3 l held) in
    record {
      initial = later 0 running 0 (omega arith) (kept k1 k2 1 0 0 running 0 n2 (omega arith) h0);
      first = later 1 ready 3 (omega arith) (kept k1 k2 1 0 1 ready 3 n2 (omega arith) n1.holds);
      second = later 2 ready 0 (omega arith) n2.holds;
      third = kept k3 k4 3 6 3 ready 10 n4 (omega arith) n3.holds;
      fourth = n4.holds;
      tickets = gt_create-TicketsValid _ k3 (
          gt_create-TicketsValid _ k2 (
            gt_create-TicketsValid _ k1 (
              gt_create-TicketsValid _ k0
                (with_algorithm-TicketsValid x a (gt_init-TicketsValid x.created x.changed)))));
    }
