-- ===== src/Scheduler/Work/Exclusion.antt =====
-- Who has the semaphore.
use ivos.Base.{
  ℕ, ◌<◌, ◌≡◌, ◌≢◌, refl, ap, ◌∙◌, Bool, true, arith, fault, Safely-not_fault, if◌then◌else◌,
}
use ivos.Scheduler.Thread.{blocked, state_of}
use ivos.Scheduler.Policy.Slots.{is_state-ne}
use ivos.Scheduler.Work.{Program, place, Given, f}
use ivos.Scheduler.Work.Totals.{total-one, total-some, listed}
use ivos.Scheduler.Work.Sound.{is_inside, is_blocked, owners}
use ivos.Scheduler.Work.Reaching.{IsGiven, Reached, IsSound}
use ivos.Scheduler.Work.Steps.{f-IsSound}
use ivos.Scheduler.Work.Invariant.{Reached-IsSound}

-- Thread `j` is between sem_wait and sem_post and is not blocked.
abbrev pub Owns : Program → ℕ → Type 0
Owns p j = (is_inside (place p j) ≡ true) × (state_of p.kernel j ≢ blocked)

pub owners-Owns : (p : Program) (j : ℕ) → Owns p j → owners (is_blocked p.kernel) (place p) j ≡ 1
owners-Owns p j (inside, awake) = rw (inside, is_state-ne (state_of p.kernel j) blocked awake) refl

Owns-owners : (p : Program) (j : ℕ) → 0 < owners (is_blocked p.kernel) (place p) j → Owns p j
Owns-owners p j l = ground arith

-- In every state that the program reaches, at most one thread is between sem_wait and sem_post and not
-- blocked.
pub Reached-excludes :
    {p : Program} → Reached p → (i j : ℕ) → i < 5 → j < 5 → Owns p i → Owns p j → i ≡ j
Reached-excludes {p} r i j li lj oi oj =
    let v = Reached-IsSound r in
    total-one 5 i j (owners (is_blocked p.kernel) (place p)) (omega (arith, v.balance)) li lj
      (owners-Owns p i oi) (owners-Owns p j oj)

-- In every state that the program reaches: while a thread is blocked, another has the semaphore and is
-- not blocked.
pub Reached-attended :
    {p : Program}
    → Reached p
    → (j : ℕ) → j < 5
    → state_of p.kernel j ≡ blocked
    → (i : ℕ) × (i < 5) × (i ≢ j) × Owns p i
Reached-attended {p} r j l b =
    let v = Reached-IsSound r in
    let stands : is_blocked p.kernel j ≡ true = rw b refl in
    let once : listed j v.cells ≡ 1 = v.once j l ∙ ap (λ (t : Bool). if t then 1 else 0) stands in
    let none_left : ¬ (0 < v.units) = λ m. absurd (omega (arith, once, ap (listed j) (v.idle m))) in
    let (i, li, some) =
      total-some 5 (owners (is_blocked p.kernel) (place p)) (omega (arith, v.balance)) in
    let owns = Owns-owners p i some in (i, li, (λ e. owns.1 (ap (state_of p.kernel) e ∙ b)), owns)

-- In every state that the program reaches, no statement of `f` faults: `malloc` gives what is asked for,
-- sem_wait and sem_post follow only pointers to items of the queue, and write only inside the table.
Reached-f :
    {p : Program}
    → Reached p
    → (g : Given) → IsGiven g p
    → f g (place p p.kernel.gt_current) p ≢ fault
Reached-f {p} r g given =
    Safely-not_fault IsSound _
      (f-IsSound g (place p p.kernel.gt_current) p (Reached-IsSound r) given refl)
