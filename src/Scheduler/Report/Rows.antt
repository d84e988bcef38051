-- ===== src/Scheduler/Report/Rows.antt =====
-- Which threads the tables have.
use ivos.Base.{
  ℕ, zero, suc, ◌+◌, ◌==◌, ◌≡◌, ltb, leb, eq→==, ==→eq, Bool, true, false, ◌&&◌, Bool-cases, inl,
  inr, refl, ap, sym, ◌∙◌, subst, Option, none, some, List, [], ◌∷◌, if◌then◌else◌, arith,
}
use ivos.Scheduler.Time.{Timeval}
use ivos.Scheduler.Stats.{Stats}
use ivos.Scheduler.Thread.{max_g_threads, Gt, Kernel}
use ivos.Scheduler.Report.{Row, has_row, row_of, table_rows, gt_print_stats}

-- The first row of a thread.
abbrev pub find_row : (i : ℕ) → List Row → Option Row
find_row i [] = none
find_row i (r ∷ rows) = let rest = find_row i rows in if r.id == i then some r else rest

-- The row that thread `i` is to have in a table, if it is a slot.
abbrev pub row_if :
    (slot : Bool) → (stats : Gt → Stats) → (total : Gt → Timeval) → Kernel → (i : ℕ) → Option Row
row_if slot stats total k i =
    let t = k.gt_table i in
    if slot && has_row t (stats t)
    then some (row_of k.get_next_thread i t (stats t) (total t))
    else none

abbrev between : (i left j : ℕ) → Bool
between i left j = leb i j && ltb j (i + left)

between_here : (i left : ℕ) → between i (suc left) i ≡ true
between_here i left = ground arith

between_behind : (i left : ℕ) → between (i + 1) left i ≡ false
between_behind i left = ground arith

between_next : (i left j : ℕ) → (i == j) ≡ false → between (i + 1) left j ≡ between i (suc left) j
between_next i left j other = ground arith

between_none : (i j : ℕ) → between i 0 j ≡ false
between_none i j = ground arith

find_row-if :
    (b : Bool) (r : Row) (rows : List Row) (j : ℕ)
    → find_row j (if b then r ∷ rows else rows)
      ≡ (if b && (r.id == j) then some r else find_row j rows)
find_row-if true r rows j = refl
find_row-if false r rows j = refl

and_true : (b : Bool) → (b && true) ≡ b
and_true true = refl
and_true false = refl

and_false : (b : Bool) → (b && false) ≡ false
and_false true = refl
and_false false = refl

find_row-here :
    (stats : Gt → Stats) (total : Gt → Timeval) (left : ℕ) (k : Kernel) (i : ℕ)
    → find_row i (table_rows stats total left k (i + 1)) ≡ row_if false stats total k i
    → find_row i (table_rows stats total (suc left) k i) ≡ row_if true stats total k i
unfolding table_rows row_of
find_row-here stats total left k i behind =
    find_row-if (has_row (k.gt_table i) (stats (k.gt_table i))) _
      (table_rows stats total left k (i + 1)) i
    ∙ rw (eq→== i i refl, and_true (has_row (k.gt_table i) (stats (k.gt_table i))), behind) refl

find_row-other :
    (stats : Gt → Stats) (total : Gt → Timeval) (left : ℕ) (k : Kernel) (i j : ℕ)
    → (i == j) ≡ false
    → find_row j (table_rows stats total (suc left) k i)
      ≡ find_row j (table_rows stats total left k (i + 1))
unfolding table_rows row_of
find_row-other stats total left k i j other =
    find_row-if (has_row (k.gt_table i) (stats (k.gt_table i))) _
      (table_rows stats total left k (i + 1)) j
    ∙ rw (other, and_false (has_row (k.gt_table i) (stats (k.gt_table i)))) refl

find_row-table_rows :
    (stats : Gt → Stats) (total : Gt → Timeval) (left : ℕ) (k : Kernel) (i j : ℕ)
    → find_row j (table_rows stats total left k i) ≡ row_if (between i left j) stats total k j
unfolding table_rows
find_row-table_rows stats total zero k i j = rw (between_none i j) refl
find_row-table_rows stats total (suc left) k i j =
    let rest = find_row-table_rows stats total left k (i + 1) j in
    elim (Bool-cases (i == j)) [
      | inl here ↦
          subst
            (λ x.
              find_row x (table_rows stats total (suc left) k i)
              ≡ row_if (between i (suc left) x) stats total k x)
            (==→eq i j here)
            (find_row-here stats total left k i (
                find_row-table_rows stats total left k (i + 1) i
                ∙ ap (λ b. row_if b stats total k i) (between_behind i left))
              ∙ ap (λ b. row_if b stats total k i) (sym (between_here i left)))
      | inr other ↦
          find_row-other stats total left k i j other
          ∙ rest
          ∙ ap (λ b. row_if b stats total k j) (between_next i left j other)
    ]

abbrev pub is_slot : ℕ → Bool
is_slot i = ltb i max_g_threads

slot_between : (j : ℕ) → between 0 max_g_threads j ≡ is_slot j
slot_between j = ground arith

-- In the statistics that are printed, a thread has a row in a table just when it is a slot and is in use
-- or has had a period of that kind, and the row has its number, state, count, and the detail, total,
-- average, least, greatest and deviation of its own fields.
gt_print_stats-find_row :
    (k : Kernel) (i : ℕ)
    → (find_row i (gt_print_stats k).run_table
        ≡ row_if (is_slot i) (λ t. t.run) (λ t. t.total_running) k i)
      × (find_row i (gt_print_stats k).wait_table
          ≡ row_if (is_slot i) (λ t. t.wait) (λ t. t.total_waiting) k i)
unfolding gt_print_stats
gt_print_stats-find_row k i = (
  find_row-table_rows (λ t. t.run) (λ t. t.total_running) max_g_threads k 0 i
      ∙ ap (λ b. row_if b (λ t. t.run) (λ t. t.total_running) k i) (slot_between i),
  find_row-table_rows (λ t. t.wait) (λ t. t.total_waiting) max_g_threads k 0 i
      ∙ ap (λ b. row_if b (λ t. t.wait) (λ t. t.total_waiting) k i) (slot_between i),
)
