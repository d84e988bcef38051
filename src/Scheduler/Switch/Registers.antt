-- ===== src/Scheduler/Switch/Registers.antt =====
-- The saved registers of a thread, from the switch away from it to the switch back.
use ivos.Base.{
  ℕ, ◌+◌, ◌<◌, ◌≡◌, ◌≢◌, Bool, true, refl, sym, ap, ◌∙◌, subst, subst₂, arith, done, ◌||◌,
  Bool-cases, inl, inr,
}
use ivos.Scheduler.Time.{Timeval}
use ivos.Scheduler.Thread.{
  State, state_of, is_state, unused, blocked, running, ready, Context, Gt, Kernel, u64,
}
use ivos.Scheduler.Account.{update_thread_state}
use ivos.Scheduler.Account.Totals.{update_thread_state-frame}
use ivos.Scheduler.Account.Fixed.{fixed-update_thread_state}
use ivos.Scheduler.Policy.Pass.{SameButSkips, current-same}
use ivos.Scheduler.Switch.{gt_switch, gt_reset_sig, Inputs, yield_current, switch_to, gt_schedule}
use ivos.Scheduler.Switch.Running.{gt_schedule-Scheduled, current-switch_to}

abbrev pub context_of : Kernel → ℕ → Context
context_of k i = (k.gt_table i).ctx

-- What other threads do while thread `a` is away, its saved stack pointer being `sp`: they call
-- gt_schedule, which does not pick `a`, and in between they do what they like with the machine and the
-- table, but leave the saved registers of `a` and the word on top of its stack alone.
pub data Meanwhile (a sp : ℕ) : Kernel → Kernel → Type 0 where
  begins : {k : Kernel} → Meanwhile a sp k k
  schedules :
      {k k' : Kernel}
      → Meanwhile a sp k k'
      → (rounds : ℕ) (x : Inputs) (k'' : Kernel) → gt_schedule rounds x k' ≡ done (k'', true)
      → k''.gt_current ≢ a
      → Meanwhile a sp k k''
  works :
      {k k' : Kernel}
      → Meanwhile a sp k k'
      → (k'' : Kernel) → k''.gt_current ≡ k'.gt_current
      → context_of k'' a ≡ context_of k' a
      → k''.memory sp ≡ k'.memory sp
      → Meanwhile a sp k k''

-- `gt_switch` from slot `a` to another.
context-gt_switch : (a b : ℕ) (k : Kernel) → context_of (gt_switch a b k) a ≡ k.cpu
unfolding gt_switch
context-gt_switch a b k = ground arith

context-gt_switch_other :
    (a b j : ℕ) (k : Kernel) → j ≢ a → context_of (gt_switch a b k) j ≡ context_of k j
unfolding gt_switch
context-gt_switch_other a b j k ne = ground arith

-- Where `gt_switch` returns to, with which registers.
record Resumed (c : Context) (memory : ℕ → ℕ) (k : Kernel) : Type 0 where
  cpu : k.cpu ≡ record c { rsp = u64 (c.rsp + 8) }
  rip : k.rip ≡ memory c.rsp

gt_switch-Resumed :
    (a b : ℕ) (k : Kernel) → b ≢ a → Resumed (context_of k b) k.memory (gt_switch a b k)
unfolding gt_switch
gt_switch-Resumed a b k ne = record { cpu = ground arith; rip = ground arith }

-- Up to `gt_switch` the registers, in the machine and saved, and the memory are left alone.
record Left (k k' : Kernel) : Type 0 where
  contexts : (j : ℕ) → context_of k' j ≡ context_of k j
  cpu : k'.cpu ≡ k.cpu
  memory : k'.memory ≡ k.memory

Left-trans : {k k' k'' : Kernel} → Left k k' → Left k' k'' → Left k k''
Left-trans a b = record {
  contexts = λ j. b.contexts j ∙ a.contexts j;
  cpu = b.cpu ∙ a.cpu;
  memory = b.memory ∙ a.memory;
}

update_thread_state-Left :
    (now : Timeval) (i : ℕ) (new : State) (k : Kernel) → Left k (update_thread_state now i new k)
update_thread_state-Left now i new k =
    let control = (update_thread_state-frame now i new k).2 in
    record {
      contexts = λ j. ap (λ t. t.0) (fixed-update_thread_state now i j new k);
      cpu = ap (λ (r : Kernel). r.cpu) control;
      memory = ap (λ (r : Kernel). r.memory) control;
    }

yield_current-Left : (now : Timeval) (k : Kernel) → Left k (yield_current now k)
unfolding yield_current
yield_current-Left now k =
    let old = state_of k k.gt_current in
    elim (Bool-cases (is_state old unused || is_state old blocked)) [
      | inl stays ↦ rw stays (record { contexts = λ j. refl; cpu = refl; memory = refl })
      | inr moves ↦ rw moves (update_thread_state-Left now k.gt_current ready k)
    ]

Scheduled-Left : {k k' : Kernel} → SameButSkips (gt_reset_sig k) k' → Left k k'
unfolding gt_reset_sig
Scheduled-Left s = record {
  contexts = λ j. ap (λ (t : Gt). t.ctx) (s.threads j);
  cpu = ap (λ (r : Kernel). r.cpu) s.rest;
  memory = ap (λ (r : Kernel). r.memory) s.rest;
}

-- A call of gt_schedule that returns: the registers are saved in the slot of the thread that called it,
-- other contexts are kept, and those of the next thread are loaded.
record Switches (k k' : Kernel) : Type 0 where
  within : k'.gt_current < 5
  memory : k'.memory ≡ k.memory
  saved : context_of k' k.gt_current ≡ k.cpu
  others : (j : ℕ) → j ≢ k.gt_current → context_of k' j ≡ context_of k j
  resumed : k'.gt_current ≢ k.gt_current → Resumed (context_of k k'.gt_current) k.memory k'

-- The kernel as the switch finds it, `c` being the slot of the thread that stops.
memory-gt_switch : (a b : ℕ) (k : Kernel) → (gt_switch a b k).memory ≡ k.memory
unfolding gt_switch
memory-gt_switch a b k = refl

Resumed-Left :
    {c c' : Context} {m m' : ℕ → ℕ} {k : Kernel} → c ≡ c' → m ≡ m' → Resumed c m k → Resumed c' m' k
Resumed-Left {k = k} ec em r = subst₂ (λ c m. Resumed c m k) ec em r

switch_to-Switches :
    (x : Inputs) (p : ℕ) (k searched : Kernel)
    → p < 5
    → Left k searched
    → searched.gt_current ≡ k.gt_current
    → Switches k (switch_to x p searched)
unfolding switch_to
switch_to-Switches x p k searched within found same =
    let c = searched.gt_current in
    let started = update_thread_state x.running_at p running (yield_current x.ready_at searched) in
    let at : Kernel = record started { gt_current = p } in
    let left : Left k started = Left-trans found (
      Left-trans (yield_current-Left x.ready_at searched)
        (update_thread_state-Left x.running_at p running (yield_current x.ready_at searched))) in
    record {
      within = subst (λ q. q < 5) (sym (current-switch_to x p searched)) within;
      memory = memory-gt_switch c p at ∙ left.memory;
      saved =
          subst (λ j. context_of (gt_switch c p at) j ≡ k.cpu) same
            (context-gt_switch c p at ∙ left.cpu);
      others = λ j ne. context-gt_switch_other c p j at (λ e. ne (e ∙ same)) ∙ left.contexts j;
      resumed =
          subst (λ q. q ≢ k.gt_current → Resumed (context_of k q) k.memory (switch_to x p searched))
            (sym (current-switch_to x p searched))
            (λ ne.
              Resumed-Left (left.contexts p) left.memory
                (gt_switch-Resumed c p at (λ e. ne (e ∙ same))));
    }

current-reset : (k k' : Kernel) → SameButSkips (gt_reset_sig k) k' → k'.gt_current ≡ k.gt_current
unfolding gt_reset_sig
current-reset k k' s = current-same s

gt_schedule-Switches :
    (rounds : ℕ) (x : Inputs) (k k' : Kernel) (b : Bool)
    → k.gt_current < 5
    → gt_schedule rounds x k ≡ done (k', b)
    → Switches k k'
gt_schedule-Switches rounds x k k' b l e =
    let s = gt_schedule-Scheduled rounds x k k' b l e in
    subst (Switches k) (sym s.result) (
      switch_to-Switches x s.next k s.searched s.may_run.within (Scheduled-Left s.same)
        (current-reset k s.searched s.same))

-- What stays of the thread in slot `a` while it is away.
record Away (a : ℕ) (c : Context) (word : ℕ) (k : Kernel) : Type 0 where
  within : k.gt_current < 5
  elsewhere : k.gt_current ≢ a
  context : context_of k a ≡ c
  top : k.memory c.rsp ≡ word

Meanwhile-Away :
    {a : ℕ} {c : Context} {word : ℕ} {k k' : Kernel}
    → Meanwhile a c.rsp k k'
    → Away a c word k
    → Away a c word k'
Meanwhile-Away begins w = w
Meanwhile-Away {c = c} (schedules {k' = k'} m rounds x k'' e ne) w =
    let v = Meanwhile-Away m w in
    let s = gt_schedule-Switches rounds x k' k'' true v.within e in
    record {
      within = s.within;
      elsewhere = ne;
      context = s.others _ (λ e. v.elsewhere (sym e)) ∙ v.context;
      top = ap (λ f. f c.rsp) s.memory ∙ v.top;
    }
Meanwhile-Away (works m k'' current context memory) w =
    let v = Meanwhile-Away m w in
    record {
      within = rw current v.within;
      elsewhere = λ e. v.elsewhere (sym current ∙ e);
      context = context ∙ v.context;
      top = memory ∙ v.top;
    }

-- A thread that calls gt_schedule and is switched away from, under whatever algorithm: when later a
-- call of gt_schedule by another thread picks it, however many other switches there were between, and
-- if what the others did left its saved registers and the word on top of its stack alone, it goes on
-- behind its call of `gt_switch`, with each of its seven registers as it was: the stack pointer has
-- the return address popped.
pub gt_schedule-resumes :
    (rounds rounds' : ℕ) (x x' : Inputs) (k k1 k2 k3 : Kernel) (b b' : Bool)
    → k.gt_current < 5
    → gt_schedule rounds x k ≡ done (k1, b)
    → k1.gt_current ≢ k.gt_current
    → Meanwhile k.gt_current k.cpu.rsp k1 k2
    → gt_schedule rounds' x' k2 ≡ done (k3, b')
    → k3.gt_current ≡ k.gt_current
    → (k3.cpu ≡ record k.cpu { rsp = u64 (k.cpu.rsp + 8) }) × (k3.rip ≡ k.memory k.cpu.rsp)
gt_schedule-resumes rounds rounds' x x' k k1 k2 k3 b b' l leaves ne between comes back =
    let s = gt_schedule-Switches rounds x k k1 b l leaves in
    let v = Meanwhile-Away between (record {
      within = s.within;
      elsewhere = ne;
      context = s.saved;
      top = ap (λ f. f k.cpu.rsp) s.memory;
    }) in
    let s' = gt_schedule-Switches rounds' x' k2 k3 b' v.within comes in
    let r = s'.resumed (λ e. v.elsewhere (sym e ∙ back)) in
    let here : context_of k2 k3.gt_current ≡ k.cpu = ap (context_of k2) back ∙ v.context in
    (
      r.cpu ∙ ap (λ (c : Context). let r : Context = record c { rsp = u64 (c.rsp + 8) } in r) here,
      r.rip ∙ ap (λ c. k2.memory c.rsp) here ∙ v.top,
    )
