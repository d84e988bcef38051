-- ===== src/Scheduler/Work/Tests.antt =====
-- Reached states by evaluation: two threads meet at the semaphore.
use ivos.Base.{
  Bool, List, false, not, ◌&&◌, ◌==◌, maybe, ap, ℕ, ◌<◌, ◌≡◌, ◌≢◌, refl, pos, true, none, [], ◌∷◌,
  arith, Outcome, done, fault, runs_on,
}
use ivos.Scheduler.Demo.{time, setting, setting-HasStacks}
use ivos.Scheduler.Thread.{State, is_state, by_round_robin, blocked, Kernel, state_of}
use ivos.Scheduler.Policy.{set_scheduling_algorithm, call_next_thread, round_robin}
use ivos.Scheduler.Create.{gt_create, gt_init}
use ivos.Scheduler.Main.{start_threads}
use ivos.Scheduler.Switch.{Inputs, gt_reset_sig, yield_current, switch_to, gt_switch}
use ivos.Scheduler.Sleep.{slept}
use ivos.Semaphore.{sem_init}
use ivos.Queue.{item, null}
use ivos.Scheduler.Work.{
  Point, Program, place, Given, at_wait, at_begin, at_first_sleep, at_post, f, gt_alarm_handle,
}
use ivos.Scheduler.Work.Reaching.{IsGiven, Reached, start, works, fires}
use ivos.Scheduler.Work.Sound.{is_inside, is_blocked}
use ivos.Scheduler.Work.Exclusion.{Owns, Reached-excludes, Reached-attended}
use ivos.Scheduler.Work.Intrusion.{Intrudes, f-Intrudes}
use ivos.Scheduler.Work.Handing.{Hands, f-Hands}
use ivos.Scheduler.Work.Lines.{lines_of, numbered, is_even, is_settled, has_begun}
use ivos.Scheduler.Work.Printed.{Reached-numbered}

record Run : Type 0 where
  last : Program
  reach : Reached last

abbrev given : (address : ℕ) → Given
given address = record {
  allocation = record { address = address; content = item (pos 0) 0 };
  now = time 1 0;
  naps = slept ∷ [];
}

abbrev inputs : Inputs
inputs = record { random = 0; ready_at = time 1 0; running_at = time 1 0 }

is_first_sleep : Point → Bool
is_first_sleep at_first_sleep = true
is_first_sleep p = false

is_state-of : (s : State) → s ≡ blocked → is_state s blocked ≡ true
is_state-of s e = rw e refl

-- Whether a statement can be given this.
can_be_given : Given → Program → Bool
unfolding is_first_sleep
can_be_given g p =
    not (g.allocation.address == null)
    && maybe (p.heap g.allocation.address) true (λ _. false)
    && not (is_first_sleep (place p p.kernel.gt_current) && is_blocked p.kernel p.kernel.gt_current)

IsGiven-of : (g : Given) (p : Program) → can_be_given g p ≡ true → IsGiven g p
unfolding can_be_given
IsGiven-of g p e = record {
  allocated = ground arith;
  unused = ground arith;
  timely = λ at b.
      ground (arith, ap is_first_sleep at, is_state-of (state_of p.kernel p.kernel.gt_current) b);
}

-- A statement, with the address that malloc gives, or the timer.
data Move : Type 0 where
  does : (address : ℕ) → Move
  alarm : Move

work_to :
    (r : Run) (g : Given)
    → IsGiven g r.last
    → (o : Outcome Program) → f g (place r.last r.last.kernel.gt_current) r.last ≡ o
    → Run
work_to r g has (done p) e = record { last = p; reach = works r.reach g has e }
work_to r g has fault e = r
work_to r g has runs_on e = r

work : (r : Run) (g : Given) (b : Bool) → can_be_given g r.last ≡ b → Run
unfolding work_to IsGiven-of
work r g true e =
    work_to r g (IsGiven-of g r.last e) (f g (place r.last r.last.kernel.gt_current) r.last) refl
work r g false e = r

fire : (r : Run) (o : Outcome Kernel) → gt_alarm_handle 5 inputs r.last.kernel ≡ o → Run
fire r (done k) e = record { last = _; reach = fires r.reach 5 inputs k e }
fire r fault e = r
fire r runs_on e = r

move : Move → Run → Run
unfolding work fire can_be_given
move (does address) r = work r (given address) (can_be_given (given address) r.last) refl
move alarm r = fire r (gt_alarm_handle 5 inputs r.last.kernel) refl

begun : Run
unfolding sem_init
begun = record {
  last = _;
  reach = start setting by_round_robin _ (λ _. none) setting-HasStacks refl;
}

run : List Move → Run → Run
unfolding move begun f gt_alarm_handle start_threads set_scheduling_algorithm sem_init
    call_next_thread gt_reset_sig gt_create gt_init round_robin is_first_sleep yield_current
    switch_to gt_switch
run [] r = r
run (m ∷ ms) r = run ms (move m r)

Owns-of :
    (p : Program) (j : ℕ) → is_inside (place p j) ≡ true → is_blocked p.kernel j ≡ false → Owns p j
Owns-of p j inside awake = (inside, λ b. cc (is_state-of (state_of p.kernel j) b, awake))

-- Thread 1 begins and takes the semaphore.
abbrev taken : Run
taken = run (alarm ∷ does 100 ∷ does 100 ∷ []) begun

taken-Owns : Owns taken.last 1
unfolding run
taken-Owns = Owns-of taken.last 1 refl refl

Reached-excludes_example : ◌≡◌ {A = ℕ} 1 1
Reached-excludes_example =
    Reached-excludes taken.reach 1 1 (omega arith) (omega arith) taken-Owns taken-Owns

-- Then thread 2 comes before sem_wait.
abbrev contended : Run
contended = run (alarm ∷ does 200 ∷ []) taken

contended-at_wait : place contended.last contended.last.kernel.gt_current ≡ at_wait
unfolding run
contended-at_wait = refl

contended-Owns : Owns contended.last 1
unfolding run
contended-Owns = Owns-of contended.last 1 refl refl

contended-IsGiven : IsGiven (given 200) contended.last
unfolding run can_be_given
contended-IsGiven = IsGiven-of (given 200) contended.last refl

f-Intrudes_example :
    (p' p'' : Program) × (f (given 200) at_wait contended.last ≡ done p')
    × (f (given 200) at_begin p' ≡ done p'')
    × Intrudes contended.last 1 p''
f-Intrudes_example =
    f-Intrudes contended.reach 1 (omega arith) contended-Owns contended-at_wait (given 200)
      (given 200) contended-IsGiven

-- Thread 2 waits and prints.
abbrev waiting : Run
waiting = run (does 200 ∷ does 300 ∷ []) contended

waiting-blocked : state_of waiting.last.kernel 2 ≡ blocked
unfolding run
waiting-blocked = refl

Reached-attended_example : (i : ℕ) × (i < 5) × (i ≢ 2) × Owns waiting.last i
Reached-attended_example = Reached-attended waiting.reach 2 (omega arith) waiting-blocked

waiting-has_begun : has_begun (place waiting.last 2) ≡ true
unfolding run
waiting-has_begun = refl

printed_twice : waiting.last.output ≡ record { id = 2; val = 1; ends = false } ∷ []
unfolding run
printed_twice = refl

-- The timer comes until thread 1, which has the semaphore, can go on to sem_post.
abbrev giving_up : Run
giving_up =
    run (alarm ∷ alarm ∷ alarm ∷ alarm ∷ does 100 ∷ does 100 ∷ does 100 ∷ does 100 ∷ []) waiting

giving_up-blocked : state_of giving_up.last.kernel 2 ≡ blocked
unfolding run
giving_up-blocked = refl

giving_up-at_post : place giving_up.last giving_up.last.kernel.gt_current ≡ at_post
unfolding run
giving_up-at_post = refl

f-Hands_example :
    (i : ℕ) × (p' : Program) × (i < 5)
    × (f (given 100) at_post giving_up.last ≡ done p')
    × Hands giving_up.last i p'
f-Hands_example =
    f-Hands giving_up.reach 2 (omega arith) giving_up-blocked giving_up-at_post (given 100)

Reached-numbered_example :
    (lines_of (waiting.last.activations 2).id waiting.last.output
      ≡ numbered (waiting.last.activations 2).id (waiting.last.activations 2).i)
    × (is_even (waiting.last.activations 2).i ≡ is_settled (place waiting.last 2))
    × ((i : ℕ)
        → has_begun (place waiting.last i) ≡ true
        → (waiting.last.activations i).id ≡ (waiting.last.activations 2).id
        → i ≡ 2)
Reached-numbered_example = Reached-numbered waiting.reach 2 waiting-has_begun
