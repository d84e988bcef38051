-- ===== src/Scheduler/Policy/Slots.antt =====
-- Slots of the thread table in cyclic order, and tests on states.
use ivos.Base.{ℕ, suc, ◌+◌, ◌%◌, ◌<◌, ◌≡◌, ◌≢◌, true, false, arith}
use ivos.Scheduler.Thread.{State, is_state}
use ivos.Scheduler.Policy.{next_slot}

-- The slot `d` places after `p`.
abbrev pub after : ℕ → ℕ → ℕ
after p d = (p + d) % 5

pub next_slot-eq : (p : ℕ) → p < 5 → next_slot p ≡ after p 1
next_slot-eq p h = ground arith

pub next_slot-lt : (p : ℕ) → p < 5 → next_slot p < 5
next_slot-lt p h = ground arith

pub after-next_slot : (p d : ℕ) → p < 5 → after (next_slot p) d ≡ after p (suc d)
after-next_slot p d h = ground arith

pub after-zero : (p : ℕ) → p < 5 → after p 0 ≡ p
after-zero p h = ground arith

pub after-lt : (p d : ℕ) → after p d < 5
after-lt p d = omega arith

-- Fewer than five places on, a slot is another one.
pub after-ne : (p d : ℕ) → p < 5 → 0 < d → d < 5 → after p d ≢ p
after-ne p d h l u e = omega arith

pub is_state-eq : (s t : State) → s ≡ t → is_state s t ≡ true
is_state-eq s t h = ground arith

pub is_state-ne : (s t : State) → s ≢ t → is_state s t ≡ false
is_state-ne s t h = ground arith

pub eq-is_state : (s t : State) → is_state s t ≡ true → s ≡ t
eq-is_state s t h = ground arith

pub ne-is_state : (s t : State) → is_state s t ≡ false → s ≢ t
ne-is_state s t h = ground arith
