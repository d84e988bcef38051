-- ===== src/Scheduler/Policy/Lottery.antt =====
-- The draw of `lottery`.
use ivos.Base.{
  ℕ, zero, suc, ◌+◌, ◌%◌, ◌<◌, ◌≤◌, ◌≡◌, inl, inr, true, false, arith, done, none, some, ap, ◌∙◌,
  Option-cases, ℕ_discrete,
}
use ivos.Scheduler.Thread.{Kernel}
use ivos.Scheduler.Policy.{holds_ticket, find_winner, lottery, round_robin}

-- Slot `i` may be drawn with this ticket.
abbrev pub CanWin : Kernel → ℕ → ℕ → Type 0
CanWin k ticket i = holds_ticket ticket (k.gt_table i) ≡ true

pub find_winner-some :
    (k : Kernel) (left ticket p w : ℕ)
    → find_winner left k ticket p ≡ some w
    → (p ≤ w) × (w < p + left) × CanWin k ticket w
unfolding find_winner
find_winner-some k zero ticket p w h = ground arith
find_winner-some k (suc left) ticket p w h =
    ground (arith, find_winner-some k left ticket (p + 1) w)

find_winner-none :
    (k : Kernel) (left ticket p i : ℕ)
    → find_winner left k ticket p ≡ none
    → p ≤ i
    → i < p + left
    → holds_ticket ticket (k.gt_table i) ≡ false
unfolding find_winner
find_winner-none k zero ticket p i h l u = absurd (omega arith)
find_winner-none k (suc left) ticket p i h l u = elim (ℕ_discrete p i) [
  | yes e ↦ ground arith
  | no ne ↦ ground (arith, find_winner-none k left ticket (p + 1) i)
]

draw :
    (k : Kernel) (ticket w : ℕ)
    → w < 5
    → CanWin k ticket w
    → ((i : ℕ) → i < 5 → CanWin k ticket i → i ≡ w)
    → find_winner 5 k ticket 0 ≡ some w
draw k ticket w l wins only = elim (Option-cases (find_winner 5 k ticket 0)) [
  | inl lost ↦
      absurd (ground (arith, find_winner-none k 5 ticket 0 w lost (omega arith) (omega arith)))
  | inr (v, won) ↦
      let (a, b, c) = find_winner-some k 5 ticket 0 v won in won ∙ ap some (only v (omega arith) c)
]

-- If one slot alone can win with the drawn ticket, `lottery` returns true with that slot, wherever
-- the caller's pointer stands.
pub lottery-winner :
    (k : Kernel) (rounds random w p : ℕ)
    → 0 < k.total_tickets
    → w < 5
    → CanWin k (random % k.total_tickets) w
    → ((i : ℕ) → i < 5 → CanWin k (random % k.total_tickets) i → i ≡ w)
    → lottery rounds random k p ≡ done (w, true)
unfolding lottery
lottery-winner k rounds random w p tickets l wins only =
    ground (arith, draw k (random % k.total_tickets) w l wins only)

-- If no slot can win, the draw is decided by `round_robin`.
pub lottery-no_winner :
    (k : Kernel) (rounds random p : ℕ)
    → 0 < k.total_tickets
    → ((i : ℕ) → i < 5 → ¬ CanWin k (random % k.total_tickets) i)
    → lottery rounds random k p ≡ round_robin rounds k p
unfolding lottery
lottery-no_winner k rounds random p tickets lost =
    elim (Option-cases (find_winner 5 k (random % k.total_tickets) 0)) [
      | inl e ↦ ground (arith, e)
      | inr (v, won) ↦
          let (a, b, c) = find_winner-some k 5 (random % k.total_tickets) 0 v won in
          absurd (lost v (omega arith) c)
    ]
