-- ===== src/Scheduler/Work/Printed.antt =====
-- What the threads print.
use ivos.Base.{
  ℕ, ◌≡◌, ◌≢◌, refl, sym, ap, subst, true, false, not, arith, done, Ensures, Ensures-bind,
  Ensures-any,
}
use ivos.Scheduler.Sleep.{Timespec, gt_uninterruptible_nanosleep}
use ivos.Semaphore.{sem_wait, sem_post}
use ivos.Scheduler.Work.{
  Point, in_main, at_start, at_wait, at_begin, at_first_sleep, at_end, at_second_sleep, at_post,
  Program, place, Given, go_on, sleep, wait, post, begin_work, print_line, f,
}
use ivos.Scheduler.Work.Reaching.{Reached, start, works, fires, first_activation}
use ivos.Scheduler.Work.Lines.{
  lines_of, numbered, is_even, has_begun, is_settled, AllPrinted, begins, moves, prints,
}

abbrev fifty_ms : Timespec
fifty_ms = record { tv_sec = 0; tv_nsec = 50000000 }

abbrev HasPrinted : Program → Type 0
HasPrinted p = AllPrinted p.x p.output p.activations

f-HasPrinted :
    (g : Given) (at : Point) (p : Program)
    → HasPrinted p
    → place p p.kernel.gt_current ≡ at
    → Ensures HasPrinted (f g at p)
unfolding f begin_work print_line sleep wait post
f-HasPrinted g in_main p v e = tt
f-HasPrinted g at_start p v e = begins p.x p.output p.activations p.kernel.gt_current v
f-HasPrinted g at_wait p v e =
    Ensures-bind (λ _. Unit {0}) HasPrinted (sem_wait g.allocation g.now p.sem p.heap p.kernel)
      (λ r. done (record (go_on at_begin p) { kernel = r.2; sem = r.0; heap = r.1 }))
      (Ensures-any (sem_wait g.allocation g.now p.sem p.heap p.kernel))
      (λ r _.
        moves p.x p.output p.activations p.kernel.gt_current v at_begin (ap has_begun e)
          (sym (ap is_settled e)))
f-HasPrinted g at_begin p v e =
    prints p.x p.output p.activations p.kernel.gt_current v false at_first_sleep (ap has_begun e)
      (sym (ap (λ t. not (is_settled t)) e)) refl
f-HasPrinted g at_first_sleep p v e =
    Ensures-bind (λ _. Unit {0}) HasPrinted (gt_uninterruptible_nanosleep g.naps fifty_ms)
      (λ r. done (go_on at_end p)) (Ensures-any (gt_uninterruptible_nanosleep g.naps fifty_ms))
      (λ r _.
        moves p.x p.output p.activations p.kernel.gt_current v at_end (ap has_begun e)
          (sym (ap is_settled e)))
f-HasPrinted g at_end p v e =
    prints p.x p.output p.activations p.kernel.gt_current v true at_second_sleep (ap has_begun e)
      (sym (ap (λ t. not (is_settled t)) e)) refl
f-HasPrinted g at_second_sleep p v e =
    Ensures-bind (λ _. Unit {0}) HasPrinted (gt_uninterruptible_nanosleep g.naps fifty_ms)
      (λ r. done (go_on at_post p)) (Ensures-any (gt_uninterruptible_nanosleep g.naps fifty_ms))
      (λ r _.
        moves p.x p.output p.activations p.kernel.gt_current v at_post (ap has_begun e)
          (sym (ap is_settled e)))
f-HasPrinted g at_post p v e =
    Ensures-bind (λ _. Unit {0}) HasPrinted (sem_post g.now p.sem p.heap p.kernel)
      (λ r. done (record (go_on at_wait p) { kernel = r.2; sem = r.0; heap = r.1 }))
      (Ensures-any (sem_post g.now p.sem p.heap p.kernel))
      (λ r _.
        moves p.x p.output p.activations p.kernel.gt_current v at_wait (ap has_begun e)
          (sym (ap is_settled e)))

none_begun : (j : ℕ) → has_begun (first_activation j).point ≢ true
none_begun j b = ground arith

Reached-HasPrinted : {p : Program} → Reached p → HasPrinted p
Reached-HasPrinted (start x a s h stacks init) = record {
  fresh = λ n l. refl;
  printed = λ j b. absurd (none_begun j b);
  distinct = λ i j b b' e. absurd (none_begun i b);
}
Reached-HasPrinted (works {p} r g given e) =
    subst (Ensures HasPrinted) e
      (f-HasPrinted g (place p p.kernel.gt_current) p (Reached-HasPrinted r) refl)
Reached-HasPrinted (fires r rounds x k' e) = Reached-HasPrinted r

-- In every state that the program reaches: the lines with the id of a thread that has begun are, in
-- order, 1 BEGINNING, 2 END, 3 BEGINNING and so on, up to the thread's `i`; the last is BEGINNING just
-- when the thread stands before or in its first sleep or before its next line; and no other thread
-- that has begun has the same id.
pub Reached-numbered :
    {p : Program}
    → Reached p
    → (j : ℕ) → has_begun (place p j) ≡ true
    → (lines_of (p.activations j).id p.output ≡ numbered (p.activations j).id (p.activations j).i)
      × (is_even (p.activations j).i ≡ is_settled (place p j))
      × ((i : ℕ)
          → has_begun (place p i) ≡ true
          → (p.activations i).id ≡ (p.activations j).id
          → i ≡ j)
Reached-numbered r j b =
    let v = Reached-HasPrinted r in
    let mine = v.printed j b in (mine.lines, mine.settled, λ i b' e. v.distinct i j b' b e)
