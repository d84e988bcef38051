-- ===== src/Scheduler/Work/Handing.antt =====
-- A thread that gives the semaphore up while others wait.
use ivos.Base.{
  Bool, Bool-cases, inl, inr, ℕ, ◌<◌, ◌≡◌, ◌≢◌, refl, ap, sym, ◌∙◌, subst, pos, true, arith, done,
  [], ◌∷◌, if◌then◌else◌,
}
use ivos.Scheduler.Thread.{State, is_state, ready, blocked, state_of}
use ivos.Queue.Chain.{Cells, IsQueue}
use ivos.Semaphore.Branches.{sem_post-Wakes}
use ivos.Scheduler.Work.{Program, place, go_on, Given, at_wait, at_post, f, post}
use ivos.Scheduler.Work.Totals.{listed, listed_self, AllSlots}
use ivos.Scheduler.Work.Sound.{is_inside, is_blocked}
use ivos.Scheduler.Work.Waits.{not-is_blocked}
use ivos.Scheduler.Work.Posts.{inside-may_be_blocked}
use ivos.Scheduler.Work.Reaching.{Reached, at_point, place-here, place-other, IsSound}
use ivos.Scheduler.Work.Invariant.{Reached-IsSound}
use ivos.Scheduler.Work.Exclusion.{Owns}

-- The thread `i`, which was the first in the queue and blocked, is ready and has the semaphore; the
-- thread that was current is before sem_wait; the value is as before.
pub record Hands (p : Program) (i : ℕ) (p' : Program) : Type 0 where
  pub first : ℕ
  pub rest : Cells
  pub waited : IsQueue p.heap p.sem.queue ((first, pos i) ∷ rest)
  pub was_blocked : state_of p.kernel i ≡ blocked
  pub waiting : IsQueue p'.heap p'.sem.queue rest
  pub is_ready : state_of p'.kernel i ≡ ready
  pub owned : Owns p' i
  pub given_up : place p' p.kernel.gt_current ≡ at_wait
  pub value : p'.sem.value ≡ p.sem.value

-- The first of the queue is a slot whose thread is blocked.
first-blocked :
    (p : Program) (v : IsSound p) (a i : ℕ) (xs : Cells)
    → i < 5
    → v.cells ≡ (a, pos i) ∷ xs
    → is_blocked p.kernel i ≡ true
first-blocked p v a i xs l e = elim (Bool-cases (is_blocked p.kernel i)) [
  | inl b ↦ b
  | inr b ↦ absurd (
      omega (
        arith,
        listed_self i a xs,
        ap (listed i) e,
        v.once i l ∙ ap (λ (t : Bool). if t then 1 else 0) b,
      ))
]

is_state-blocked : (s : State) → is_state s blocked ≡ true → s ≡ blocked
is_state-blocked s e = ground arith

module _ (p : Program) (v : IsSound p) (before : place p p.kernel.gt_current ≡ at_post) where
  hands :
      (g : Given) (a i : ℕ) (xs : Cells)
      → i < 5
      → v.cells ≡ (a, pos i) ∷ xs
      → (p' : Program) × (f g at_post p ≡ done p') × Hands p i p'
  unfolding f post
  hands g a i xs l e =
      let k = p.kernel in
      let waited = subst (IsQueue p.heap p.sem.queue) e v.waiting in
      let (s', h', k', runs, w) = sem_post-Wakes g.now p.sem p.heap k a i xs l waited in
      let stood = first-blocked p v a i xs l e in
      let stands = v.stands i l stood in
      let differs : i ≢ k.gt_current = λ (same : i ≡ k.gt_current).
        cc (sym (ap (is_blocked k) same) ∙ stood, not-is_blocked at_post v before refl) in
      let p' : Program = record (go_on at_wait p) { kernel = k'; sem = s'; heap = h' } in
      let stays : place p' i ≡ place p i = place-other (at_point at_wait p) p i differs in
      (
        p',
        rw runs refl,
        record {
          first = a;
          rest = xs;
          waited = waited;
          was_blocked = is_state-blocked (state_of k i) stood;
          waiting = w.queued;
          is_ready = w.is_ready;
          owned = (
            ap is_inside stays ∙ inside-may_be_blocked (place p i) stands,
            λ b. cc (w.is_ready, b),
          );
          given_up = place-here (at_point at_wait p) p;
          value = w.value;
        },
      )

-- In a state that the program reaches in which a thread is blocked: when the current thread, which has
-- the semaphore, comes to sem_post, it gives the semaphore to the thread that has waited longest, which
-- is then ready and waits no more; the others wait on in their order, no unit is added, and the current
-- thread is back before sem_wait.
pub f-Hands :
    {p : Program}
    → Reached p
    → (j : ℕ) → j < 5
    → state_of p.kernel j ≡ blocked
    → place p p.kernel.gt_current ≡ at_post
    → (g : Given) → (i : ℕ) × (p' : Program) × (i < 5) × (f g at_post p ≡ done p') × Hands p i p'
f-Hands {p} r j l b before g = of_cells v.cells refl v.slots
  where
    v : IsSound p
    v = Reached-IsSound r

    stands : is_blocked p.kernel j ≡ true
    stands = rw b refl

    of_cells :
        (xs : Cells)
        → v.cells ≡ xs
        → AllSlots xs
        → (i : ℕ) × (p' : Program) × (i < 5) × (f g at_post p ≡ done p') × Hands p i p'
    of_cells [] e all =
        absurd (
          omega (arith, ap (listed j) e, v.once j l ∙ ap (λ (t : Bool). if t then 1 else 0) stands))
    of_cells ((a, z) ∷ xs) e ((i, is, m), all) =
        let (p', runs, h) = hands p v before g a i xs m (e ∙ ap (λ t. (a, t) ∷ xs) is) in
        (i, p', m, runs, h)
