-- ===== src/Scheduler/Switch/Running.antt =====
-- Who runs after `gt_schedule`.
use ivos.Base.{
  ℕ, ◌<◌, ◌≡◌, ◌≢◌, Bool, true, false, refl, sym, ◌∙◌, ap, arith, done, fault, runs_on, Outcome,
  if◌then◌else◌, ◌==◌, ◌>>=◌, not, ℕ_discrete,
}
use ivos.Scheduler.Time.{Timeval}
use ivos.Scheduler.Thread.{State, unused, running, ready, blocked, Kernel, state_of}
use ivos.Scheduler.Account.{update_thread_state}
use ivos.Scheduler.Account.Totals.{update_thread_state-frame}
use ivos.Scheduler.Policy.{call_next_thread}
use ivos.Scheduler.Policy.Pass.{SameButSkips, state_of-same, current-same}
use ivos.Scheduler.Switch.{gt_switch, gt_reset_sig, Inputs, yield_current, switch_to, gt_schedule}
use ivos.Scheduler.Switch.Next.{MayRun, call_next_thread-MayRun}

-- No thread but the current one is running.
pub record OnlyCurrent (k : Kernel) : Type 0 where
  pub within : k.gt_current < 5
  pub others : (j : ℕ) → j < 5 → j ≢ k.gt_current → state_of k j ≢ running

state_of-gt_switch : (old new j : ℕ) (k : Kernel) → state_of (gt_switch old new k) j ≡ state_of k j
unfolding gt_switch
state_of-gt_switch old new j k = ground arith

-- What becomes of the current thread's state.
abbrev pub yielded : State → State
yielded running = ready
yielded ready = ready
yielded blocked = blocked
yielded unused = unused

state_of-update :
    (now : Timeval) (i j : ℕ) (new : State) (k : Kernel)
    → state_of (update_thread_state now i new k) j ≡ (if j == i then new else state_of k j)
state_of-update now i j new k =
    let (a, b, c) = update_thread_state-frame now i new k in
    elim (ℕ_discrete j i) [ yes e ↦ ground (arith, a) | no ne ↦ ground (arith, b j ne) ]

state_of-yield_current :
    (now : Timeval) (j : ℕ) (k : Kernel)
    → state_of (yield_current now k) j
      ≡ (if j == k.gt_current then yielded (state_of k k.gt_current) else state_of k j)
unfolding yield_current
state_of-yield_current now j k = ground (arith, state_of-update now k.gt_current j ready k)

state_of-switch_to :
    (x : Inputs) (p j : ℕ) (k : Kernel)
    → state_of (switch_to x p k) j
      ≡ (if j == p then running else state_of (yield_current x.ready_at k) j)
unfolding switch_to
state_of-switch_to x p j k =
    state_of-gt_switch k.gt_current p j _
    ∙ state_of-update x.running_at p j running (yield_current x.ready_at k)

-- What a call of `gt_schedule` that returns has done.
pub record Scheduled (x : Inputs) (k k' : Kernel) (b : Bool) : Type 0 where
  pub searched : Kernel
  pub next : ℕ
  pub returns_true : b ≡ true
  pub may_run : MayRun (gt_reset_sig k) next
  pub same : SameButSkips (gt_reset_sig k) searched
  pub result : k' ≡ switch_to x next searched

Scheduled-of :
    (x : Inputs) (k k' : Kernel) (b : Bool) (run : Outcome (Kernel × ℕ × Bool))
    → ((k1 : Kernel) (p : ℕ) (found : Bool)
        → run ≡ done (k1, p, found)
        → (found ≡ true) × MayRun (gt_reset_sig k) p × SameButSkips (gt_reset_sig k) k1)
    → ◌≡◌ {A = Outcome (Kernel × Bool)}
        (run >>= λ r. if not r.2 then done (r.0, false) else done (switch_to x r.1 r.0, true))
        (done (k', b))
    → Scheduled x k k' b
Scheduled-of x k k' b (done (k1, p, true)) lemma e =
    let (t, m, s) = lemma k1 p true refl in
    record {
      searched = k1;
      next = p;
      returns_true = ground arith;
      may_run = m;
      same = s;
      result = cc;
    }
Scheduled-of x k k' b (done (k1, p, false)) lemma e =
    let (t, m, s) = lemma k1 p false refl in absurd (cc t)
Scheduled-of x k k' b fault lemma e = absurd (cc)
Scheduled-of x k k' b runs_on lemma e = absurd (cc)

pub gt_schedule-Scheduled :
    (rounds : ℕ) (x : Inputs) (k k' : Kernel) (b : Bool)
    → k.gt_current < 5
    → gt_schedule rounds x k ≡ done (k', b)
    → Scheduled x k k' b
unfolding gt_schedule gt_reset_sig
gt_schedule-Scheduled rounds x k k' b l e =
    let start = gt_reset_sig k in
    Scheduled-of x k k' b
      (call_next_thread start.get_next_thread rounds x.random start start.gt_current)
      (λ k1 p found.
        call_next_thread-MayRun start.get_next_thread rounds x.random start k1 start.gt_current p
          found l)
      e

pub current-switch_to : (x : Inputs) (p : ℕ) (k : Kernel) → (switch_to x p k).gt_current ≡ p
unfolding switch_to gt_switch
current-switch_to x p k = refl

-- The state of a slot after the call, from the states before it.
pub state-Scheduled :
    {x : Inputs} {k k' : Kernel} {b : Bool} (s : Scheduled x k k' b) (j : ℕ)
    → state_of k' j ≡ (
        if j == s.next
        then running
        else if j == k.gt_current
        then yielded (state_of k k.gt_current)
        else state_of k j)
unfolding gt_reset_sig
state-Scheduled {x} {k} s j =
    ap (λ (r : Kernel). state_of r j) s.result
    ∙ state_of-switch_to x s.next j s.searched
    ∙ rw (
      state_of-yield_current x.ready_at j s.searched,
      current-same s.same,
      state_of-same j s.same,
      state_of-same k.gt_current s.same,
    )

-- Exactly one thread runs, the current one; it was not blocked before, and what was blocked still is.
pub record Ran (k k' : Kernel) (b : Bool) : Type 0 where
  pub returns_true : b ≡ true
  pub within : k'.gt_current < 5
  pub is_running : state_of k' k'.gt_current ≡ running
  pub others : (j : ℕ) → j < 5 → j ≢ k'.gt_current → state_of k' j ≢ running
  pub was_awake : state_of k k'.gt_current ≢ blocked
  pub still : (j : ℕ) → state_of k j ≡ blocked → state_of k' j ≡ blocked

module _ {x : Inputs} {k k' : Kernel} {b : Bool} (s : Scheduled x k k' b) (j : ℕ) where
  not-running : j ≢ s.next → (j ≢ k.gt_current → state_of k j ≢ running) → state_of k' j ≢ running
  not-running ne others r = ground (arith, state-Scheduled s j, others)

  still-blocked : state_of k j ≡ blocked → state_of k' j ≡ blocked
  unfolding gt_reset_sig
  still-blocked h = elim (ℕ_discrete j s.next) [
    | yes e ↦ absurd (s.may_run.awake (ap (state_of k) (sym e) ∙ h))
    | no ne ↦ ground (arith, state-Scheduled s j)
  ]

-- Under every algorithm, whatever the state of the current thread: if no thread but the current one is
-- running and `gt_schedule` returns, it returns true; then the current thread is the one that is
-- running, it was not blocked, and blocked threads are blocked still.
pub gt_schedule-Ran :
    (rounds : ℕ) (x : Inputs) (k k' : Kernel) (b : Bool)
    → OnlyCurrent k
    → gt_schedule rounds x k ≡ done (k', b)
    → Ran k k' b
unfolding gt_reset_sig
gt_schedule-Ran rounds x k k' b only e =
    let s = gt_schedule-Scheduled rounds x k k' b only.within e in
    let c : k'.gt_current ≡ s.next =
      ap (λ (r : Kernel). r.gt_current) s.result ∙ current-switch_to x s.next s.searched in
    record {
      returns_true = s.returns_true;
      within = rw c s.may_run.within;
      is_running = rw c (ground (arith, state-Scheduled s s.next));
      others = λ j l ne. not-running s j (λ e. ne (e ∙ sym c)) (only.others j l);
      was_awake = rw c s.may_run.awake;
      still = λ j h. still-blocked s j h;
    }
