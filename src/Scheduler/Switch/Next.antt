-- ===== src/Scheduler/Switch/Next.antt =====
-- What any scheduling algorithm returns, if it returns.
use ivos.Base.{
  ℕ, zero, suc, ◌+◌, ◌%◌, ◌<◌, ◌≡◌, ◌≢◌, ◌⊎◌, inl, inr, Bool, true, refl, ◌&&◌, arith, Outcome,
  done, fault, runs_on, ◌>>=◌, none, some, Option-cases, Bool-cases, Option, ◌==◌, subst,
}
use ivos.Scheduler.Thread.{
  ready, running, blocked, is_state, Algorithm, by_round_robin, by_priority, by_lottery, Kernel,
  state_of,
}
use ivos.Scheduler.Policy.{
  next_slot, round_robin, is_due, set_skip_count, round_robin_prio, find_winner, lottery,
  call_next_thread,
}
use ivos.Scheduler.Policy.Slots.{next_slot-lt}
use ivos.Scheduler.Policy.Pass.{
  SameButSkips, state_of-same, current-same, set_skip_count-same, same_trans,
}
use ivos.Scheduler.Policy.Lottery.{find_winner-some}

-- A slot of the table that may run: ready, running, or the current thread unless it is blocked.
pub record MayRun (k : Kernel) (q : ℕ) : Type 0 where
  pub within : q < 5
  pub awake : state_of k q ≢ blocked
  pub picked : ((state_of k q ≡ ready) ⊎ (state_of k q ≡ running)) ⊎ (q ≡ k.gt_current)

round_robin-MayRun :
    (rounds : ℕ) (k : Kernel) (p q : ℕ) (found : Bool)
    → p < 5
    → round_robin rounds k p ≡ done (q, found)
    → (found ≡ true) × MayRun k q
unfolding round_robin
round_robin-MayRun zero k p q found l e = ground arith
round_robin-MayRun (suc rounds) k p q found l e =
    ground (arith, next_slot-lt p l, round_robin-MayRun rounds k (next_slot p) q found)

MayRun-same : {k k' : Kernel} {q : ℕ} → SameButSkips k k' → MayRun k' q → MayRun k q
MayRun-same {q} same m =
    ground (arith, m.within, m.awake, m.picked, state_of-same q same, current-same same)

-- What a search returns.
abbrev pub Chooses : Kernel → Kernel → ℕ → Bool → Type 0
Chooses k k' q found = (found ≡ true) × MayRun k q × SameButSkips k k'

chosen :
    {k k1 k' : Kernel} {q1 q : ℕ} {found : Bool}
    → ◌≡◌ {A = Outcome (Kernel × ℕ × Bool)} (done (k1, q1, true)) (done (k', q, found))
    → MayRun k q1
    → SameButSkips k k1
    → Chooses k k' q found
chosen {k} {k1} {k'} {q1} {q} e m same =
    let eq : q1 ≡ q = ground arith in
    let ek : k1 ≡ k' = cc in (ground arith, subst (MayRun k) eq m, subst (SameButSkips k) ek same)

onward :
    {k k1 k' : Kernel} {q : ℕ} {found : Bool}
    → SameButSkips k k1
    → Chooses k1 k' q found
    → Chooses k k' q found
onward same (a, b, c) = (a, MayRun-same same b, same_trans same c)

round_robin_prio-MayRun :
    (rounds : ℕ) (k k' : Kernel) (p q : ℕ) (found : Bool)
    → p < 5
    → round_robin_prio rounds k p ≡ done (k', q, found)
    → Chooses k k' q found
unfolding round_robin_prio
round_robin_prio-MayRun zero k k' p q found l e = absurd (cc)
round_robin_prio-MayRun (suc rounds) k k' p q found l e =
    let r = next_slot p in
    let in_table = next_slot-lt p l in
    let older = set_skip_count-same r ((k.gt_table r).skip_count + 1) k in
    elim (Bool-cases (is_state (state_of k r) blocked)) [
      | inl shut ↦ round_robin_prio-MayRun rounds k k' r q found in_table (rw shut at e)
      | inr clear ↦ elim (Bool-cases (is_state (state_of k r) ready && is_due (k.gt_table r))) [
        | inl pick ↦ chosen (rw (clear, pick) at e) (ground arith) (set_skip_count-same r 0 k)
        | inr no_pick ↦ elim (Bool-cases (r == k.gt_current)) [
          | inl back ↦ chosen (rw (clear, no_pick, back) at e) (ground arith) older
          | inr far ↦ onward older (
              round_robin_prio-MayRun rounds (set_skip_count r ((k.gt_table r).skip_count + 1) k) k'
                r q found in_table (rw (clear, no_pick, far) at e))
        ]
      ]
    ]

lottery-MayRun :
    (rounds random : ℕ) (k : Kernel) (p q : ℕ) (found : Bool)
    → p < 5
    → lottery rounds random k p ≡ done (q, found)
    → (found ≡ true) × MayRun k q
unfolding lottery
lottery-MayRun rounds random k p q found l e =
    elim (Option-cases (find_winner 5 k (random % k.total_tickets) 0)) [
      | inl lost ↦ round_robin-MayRun rounds k p q found l (ground (arith, lost))
      | inr (w, won) ↦ ground (arith, won, find_winner-some k 5 (random % k.total_tickets) 0 w won)
    ]

-- A search that does not write.
plain_search :
    (k k' : Kernel) {q : ℕ} {found : Bool} (run : Outcome (ℕ × Bool))
    → ◌≡◌ {A = Outcome (Kernel × ℕ × Bool)} (run >>= λ r. done (k, r.0, r.1)) (done (k', q, found))
    → ((q' : ℕ) (f : Bool) → run ≡ done (q', f) → (f ≡ true) × MayRun k q')
    → Chooses k k' q found
plain_search k k' {q} {found} (done (q', f)) e lemma =
    let (t, m) = lemma q' f refl in
    let e' : ◌≡◌ {A = Outcome (Kernel × ℕ × Bool)} (done (k, q', true)) (done (k', q, found)) =
      rw (← t) e in
    chosen e' m (record { rest = refl; threads = λ j. refl })
plain_search k k' fault e lemma = absurd (cc)
plain_search k k' runs_on e lemma = absurd (cc)

-- Under every algorithm: if the search returns, it returns true, changes nothing but skip counts, and
-- its slot may run.
pub call_next_thread-MayRun :
    (algorithm : Option Algorithm) (rounds random : ℕ) (k k' : Kernel) (p q : ℕ) (found : Bool)
    → p < 5
    → call_next_thread algorithm rounds random k p ≡ done (k', q, found)
    → Chooses k k' q found
unfolding call_next_thread
call_next_thread-MayRun none rounds random k k' p q found l e = absurd (cc)
call_next_thread-MayRun (some by_round_robin) rounds random k k' p q found l e =
    plain_search k k' (round_robin rounds k p) e (λ q' f. round_robin-MayRun rounds k p q' f l)
call_next_thread-MayRun (some by_priority) rounds random k k' p q found l e =
    round_robin_prio-MayRun rounds k k' p q found l e
call_next_thread-MayRun (some by_lottery) rounds random k k' p q found l e =
    plain_search k k' (lottery rounds random k p) e
      (λ q' f. lottery-MayRun rounds random k p q' f l)
