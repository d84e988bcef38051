-- ===== src/Scheduler/Create/Tickets.antt =====
-- The ranges of lottery tickets that `gt_init` and `gt_create` hand out.
use ivos.Base.{
  ℕ, ◌+◌, ◌-◌, ◌%◌, ◌<◌, ◌≤◌, ◌≡◌, ◌≢◌, ◌⊎◌, inl, inr, ℤ, true, refl, sym, ap, subst, subst₂, ◌∙◌,
  arith, done, ℕ_discrete,
}
use ivos.Scheduler.Time.{Timeval}
use ivos.Scheduler.Thread.{State, unused, ready, min_priority, Gt, Kernel, state_of, boot}
use ivos.Scheduler.Account.{init_thread_stats, change_state, account}
use ivos.Scheduler.Policy.{lottery}
use ivos.Scheduler.Policy.Lottery.{CanWin, lottery-winner}
use ivos.Scheduler.Create.Result.{gt_create-cases}
use ivos.Scheduler.Create.{gt_init, clamp, Request, new_thread, fill_slot, gt_create}

-- A thread that is not unused has a priority in range, and one ticket more for each step by which it
-- is better than the worst.
pub record HasTickets (total : ℕ) (t : Gt) : Type 0 where
  pub priority : t.priority ≤ min_priority
  pub width : t.tickets_hi ≡ t.tickets_lo + (min_priority - t.priority)
  pub issued : t.tickets_hi < total

abbrev pub Apart : Gt → Gt → Type 0
Apart s t = (s.tickets_hi < t.tickets_lo) ⊎ (t.tickets_hi < s.tickets_lo)

-- No two threads share a ticket.
pub record TicketsValid (k : Kernel) : Type 0 where
  pub ranges : (i : ℕ) → i < 5 → state_of k i ≢ unused → HasTickets k.total_tickets (k.gt_table i)
  pub apart :
      (i j : ℕ)
      → i < 5
      → j < 5
      → i ≢ j
      → state_of k i ≢ unused
      → state_of k j ≢ unused
      → Apart (k.gt_table i) (k.gt_table j)

clamp-le : (priority : ℤ) → clamp priority ≤ 10
unfolding clamp
clamp-le priority = ground arith

-- The fields of a thread that no change of state touches.
pub record SameTickets (s t : Gt) : Type 0 where
  pub priority : s.priority ≡ t.priority
  pub lo : s.tickets_lo ≡ t.tickets_lo
  pub hi : s.tickets_hi ≡ t.tickets_hi

pub SameTickets-change_state :
    (now : Timeval) (new : State) (t : Gt) → SameTickets (change_state now new t) t
unfolding change_state account
SameTickets-change_state now new t = ground arith

-- What `gt_create` leaves in the slot that it fills.
pub new_tickets :
    (r : Request) (p : ℕ) (k : Kernel)
    → let t = (fill_slot r p k).gt_table p in
      (t.priority ≡ clamp r.priority)
      × (t.tickets_lo ≡ k.total_tickets)
      × (t.tickets_hi ≡ k.total_tickets + (min_priority - clamp r.priority))
unfolding fill_slot new_thread
new_tickets r p k =
    let same =
      SameTickets-change_state r.ready_at ready (new_thread r k.total_tickets (k.gt_table p)) in
    (ground (arith, same.priority), ground (arith, same.lo), ground (arith, same.hi))

total_tickets-fill_slot :
    (r : Request) (p : ℕ) (k : Kernel)
    → (fill_slot r p k).total_tickets ≡ k.total_tickets + (min_priority - clamp r.priority + 1)
unfolding fill_slot new_thread
total_tickets-fill_slot r p k = refl

pub others-fill_slot :
    (r : Request) (p j : ℕ) (k : Kernel) → j ≢ p → (fill_slot r p k).gt_table j ≡ k.gt_table j
unfolding fill_slot
others-fill_slot r p j k ne = ground arith

new_HasTickets :
    (r : Request) (p : ℕ) (k : Kernel)
    → HasTickets (fill_slot r p k).total_tickets ((fill_slot r p k).gt_table p)
new_HasTickets r p k =
    let (a, b, c) = new_tickets r p k in
    ground (arith, clamp-le r.priority, total_tickets-fill_slot r p k)

module _ (r : Request) (p : ℕ) (k : Kernel) (v : TicketsValid k) where
  old_HasTickets :
      (i : ℕ)
      → i < 5
      → i ≢ p
      → state_of (fill_slot r p k) i ≢ unused
      → HasTickets k.total_tickets ((fill_slot r p k).gt_table i)
  old_HasTickets i l ne live =
      let e = others-fill_slot r p i k ne in
      subst (HasTickets k.total_tickets) (sym e)
        (v.ranges i l (λ u. live (ap (λ (t : Gt). t.state) e ∙ u)))

  ranges_step :
      (i : ℕ)
      → i < 5
      → state_of (fill_slot r p k) i ≢ unused
      → HasTickets (fill_slot r p k).total_tickets ((fill_slot r p k).gt_table i)
  ranges_step i l live = elim (ℕ_discrete i p) [
    | yes e ↦
        subst (λ j. HasTickets (fill_slot r p k).total_tickets ((fill_slot r p k).gt_table j))
          (sym e) (new_HasTickets r p k)
    | no ne ↦
        let old = old_HasTickets i l ne live in
        record {
          priority = old.priority;
          width = old.width;
          issued = rw (total_tickets-fill_slot r p k) (omega (arith, old.issued));
        }
  ]

  apart_new :
      (i : ℕ)
      → i < 5
      → i ≢ p
      → state_of (fill_slot r p k) i ≢ unused
      → ((fill_slot r p k).gt_table i).tickets_hi < ((fill_slot r p k).gt_table p).tickets_lo
  apart_new i l ne live =
      let (a, b, c) = new_tickets r p k in rw b (old_HasTickets i l ne live).issued

  Apart-old :
      (i j : ℕ)
      → i < 5
      → j < 5
      → i ≢ j
      → i ≢ p
      → j ≢ p
      → state_of (fill_slot r p k) i ≢ unused
      → state_of (fill_slot r p k) j ≢ unused
      → Apart ((fill_slot r p k).gt_table i) ((fill_slot r p k).gt_table j)
  Apart-old i j l m ne ni nj a b =
      let e = others-fill_slot r p i k ni in
      let f = others-fill_slot r p j k nj in
      subst₂ Apart (sym e) (sym f) (
        v.apart i j l m ne (λ u. a (ap (λ (t : Gt). t.state) e ∙ u))
          (λ u. b (ap (λ (t : Gt). t.state) f ∙ u)))

  fill_slot-TicketsValid : TicketsValid (fill_slot r p k)
  fill_slot-TicketsValid = record {
    ranges = ranges_step;
    apart = λ i j l m ne a b. elim (ℕ_discrete i p) [
      | yes e ↦ inr (
          subst
            (λ q.
              ((fill_slot r p k).gt_table j).tickets_hi < ((fill_slot r p k).gt_table q).tickets_lo)
            (sym e) (apart_new j m (λ x. ne (e ∙ sym x)) b))
      | no ni ↦ elim (ℕ_discrete j p) [
        | yes e ↦ inl (
            subst
              (λ q.
                ((fill_slot r p k).gt_table i).tickets_hi
                < ((fill_slot r p k).gt_table q).tickets_lo)
              (sym e) (apart_new i l ni a))
        | no nj ↦ Apart-old i j l m ne ni nj a b
      ]
    ];
  }

-- `gt_create`, whether it succeeds or not, keeps the tickets of different threads apart and each
-- thread's share at eleven less its priority, for any requested priority.
pub gt_create-TicketsValid :
    (r : Request) (k : Kernel) → TicketsValid k → TicketsValid (gt_create r k).0
gt_create-TicketsValid r k v = elim (gt_create-cases r k) [
  | inl (same, _) ↦ subst (λ (x : Kernel × ℤ). TicketsValid x.0) (sym same) v
  | inr (p, _, _, filled) ↦
      subst (λ (x : Kernel × ℤ). TicketsValid x.0) (sym filled) (fill_slot-TicketsValid r p k v)
]

pub gt_init-TicketsValid : (created changed : Timeval) → TicketsValid (gt_init created changed boot)
unfolding gt_init init_thread_stats
gt_init-TicketsValid created changed = record {
  ranges = λ i l live. elim (ℕ_discrete i 0) [
    | yes e ↦ rw e (omega arith)
    | no ne ↦ absurd (live (ground arith))
  ];
  apart = λ i j l m ne a b. absurd (ground (arith, a, b));
}

-- With valid tickets, a draw that hits the range of a thread that is ready or running returns that
-- thread, and no other can have it.
lottery-owner :
    (k : Kernel) (rounds random p i : ℕ)
    → TicketsValid k
    → 0 < k.total_tickets
    → i < 5
    → CanWin k (random % k.total_tickets) i
    → lottery rounds random k p ≡ done (i, true)
lottery-owner k rounds random p i v pos_total l wins =
    lottery-winner k rounds random i p pos_total l wins (λ j m other. elim (ℕ_discrete j i) [
      | yes e ↦ e
      | no ne ↦ absurd (ground (arith, v.apart j i m l ne))
    ])
