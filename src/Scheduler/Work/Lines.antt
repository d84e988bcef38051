-- ===== src/Scheduler/Work/Lines.antt =====
-- The lines of one thread among all, and how they grow.
use ivos.Base.{
  Bool-cases, inl, inr, ℕ, zero, suc, ◌+◌, ◌<◌, ◌≤◌, ◌==◌, ◌≡◌, ◌≢◌, refl, sym, ap, subst, ◌∙◌,
  Bool, true, false, not, arith, List, [], ◌∷◌, ◌++◌, append-nil, ℕ_discrete, if◌then◌else◌, eq→==,
}
use ivos.Scheduler.Thread.{update}
use ivos.Scheduler.Work.{
  Point, in_main, at_start, at_wait, at_begin, at_first_sleep, at_end, at_second_sleep, at_post,
  Activation, Printout,
}

-- The lines with a given id, in order.
abbrev pub lines_of : ℕ → List Printout → List Printout
lines_of id [] = []
lines_of id (l ∷ ls) = let rest = lines_of id ls in if l.id == id then l ∷ rest else rest

abbrev pub is_even : ℕ → Bool
is_even zero = true
is_even (suc n) = not (is_even n)

-- 1 BEGINNING, 2 END, 3 BEGINNING, and so on, up to `n`.
abbrev pub numbered : (id n : ℕ) → List Printout
numbered id zero = []
numbered id (suc n) = numbered id n ++ record { id = id; val = suc n; ends = is_even (suc n) } ∷ []

abbrev pub has_begun : Point → Bool
has_begun in_main = false
has_begun at_start = false
has_begun at_wait = true
has_begun at_begin = true
has_begun at_first_sleep = true
has_begun at_end = true
has_begun at_second_sleep = true
has_begun at_post = true

abbrev line_of : (id val : ℕ) → Bool → List Printout
line_of id val ends = record { id = id; val = val; ends = ends } ∷ []

-- Whether as many lines END as BEGINNING have been printed.
abbrev pub is_settled : Point → Bool
is_settled at_first_sleep = false
is_settled at_end = false
is_settled in_main = true
is_settled at_start = true
is_settled at_wait = true
is_settled at_begin = true
is_settled at_second_sleep = true
is_settled at_post = true

-- What is known of a thread that has begun.
pub record IsPrinted (x : ℕ) (output : List Printout) (a : Activation) : Type 0 where
  pub known : a.id ≤ x
  pub lines : lines_of a.id output ≡ numbered a.id a.i
  pub settled : is_even a.i ≡ is_settled a.point

pub record AllPrinted (x : ℕ) (output : List Printout) (ts : ℕ → Activation) : Type 0 where
  pub fresh : (n : ℕ) → x < n → lines_of n output ≡ []
  pub printed : (j : ℕ) → has_begun (ts j).point ≡ true → IsPrinted x output (ts j)
  pub distinct :
      (i j : ℕ)
      → has_begun (ts i).point ≡ true
      → has_begun (ts j).point ≡ true
      → (ts i).id ≡ (ts j).id
      → i ≡ j

update-here : (ts : ℕ → Activation) (c : ℕ) (a : Activation) → update ts c a c ≡ a
update-here ts c a = ground arith

update-other : (ts : ℕ → Activation) (c j : ℕ) (a : Activation) → j ≢ c → update ts c a j ≡ ts j
update-other ts c j a ne = ground arith

-- One thread changes: what has to be known of it, and that the others' lines stay.
changed :
    (x x' : ℕ) (output output' : List Printout) (ts : ℕ → Activation) (c : ℕ) (a : Activation)
    → AllPrinted x output ts
    → ((n : ℕ) → x' < n → lines_of n output' ≡ [])
    → IsPrinted x' output' a
    → ((j : ℕ)
        → j ≢ c
        → has_begun (ts j).point ≡ true
        → IsPrinted x' output' (ts j) × ((ts j).id ≢ a.id))
    → AllPrinted x' output' (update ts c a)
changed x x' output output' ts c a v fresh here others = record {
  fresh = fresh;
  printed = λ j b. elim (ℕ_discrete j c) [
    | yes e ↦ subst (IsPrinted x' output') (sym (ap (update ts c a) e ∙ update-here ts c a)) here
    | no ne ↦
        let same = update-other ts c j a ne in
        subst (IsPrinted x' output') (sym same)
          (others j ne (ap (λ (t : Activation). has_begun t.point) (sym same) ∙ b)).0
  ];
  distinct = λ i j bi bj e. elim (ℕ_discrete i c) [
    | yes ei ↦ elim (ℕ_discrete j c) [
      | yes ej ↦ ei ∙ sym ej
      | no nj ↦ absurd (
          apart j nj bj (
            sym e
            ∙ ap (λ t. (update ts c a t).id) ei
            ∙ ap (λ (t : Activation). t.id) (update-here ts c a)))
    ]
    | no ni ↦ elim (ℕ_discrete j c) [
      | yes ej ↦ absurd (
          apart i ni bi (
            e
            ∙ ap (λ t. (update ts c a t).id) ej
            ∙ ap (λ (t : Activation). t.id) (update-here ts c a)))
      | no nj ↦ v.distinct i j (was i ni bi) (was j nj bj) (
          ap (λ (t : Activation). t.id) (sym (update-other ts c i a ni))
          ∙ e
          ∙ ap (λ (t : Activation). t.id) (update-other ts c j a nj))
    ]
  ];
}
  where
    was : (j : ℕ) → j ≢ c → has_begun (update ts c a j).point ≡ true → has_begun (ts j).point ≡ true
    was j ne b = ap (λ (t : Activation). has_begun t.point) (sym (update-other ts c j a ne)) ∙ b

    apart : (j : ℕ) → j ≢ c → has_begun (update ts c a j).point ≡ true → (update ts c a j).id ≢ a.id
    apart j ne b e =
        (others j ne (was j ne b)).1
          (ap (λ (t : Activation). t.id) (sym (update-other ts c j a ne)) ∙ e)

≢→== : (a b : ℕ) → a ≢ b → (a == b) ≡ false
≢→== a b ne = ground arith

is_even-next : (n : ℕ) → is_even (n + 1) ≡ not (is_even n)
is_even-next n = let e : n + 1 ≡ suc n = omega arith in ap is_even e

numbered-next :
    (id n : ℕ) (ends : Bool)
    → ends ≡ is_even (n + 1)
    → numbered id (n + 1) ≡ numbered id n ++ record { id = id; val = n + 1; ends = ends } ∷ []
numbered-next id n ends e =
    let next : n + 1 ≡ suc n = omega arith in
    ap (numbered id) next
    ∙ ap (λ (m : ℕ). numbered id n ++ line_of id m (is_even m)) (sym next)
    ∙ ap (λ (b : Bool). numbered id n ++ line_of id (n + 1) b) (sym e)

lines_of-append :
    (n : ℕ) (xs ys : List Printout) → lines_of n (xs ++ ys) ≡ lines_of n xs ++ lines_of n ys
lines_of-append n [] ys = refl
lines_of-append n (l ∷ xs) ys = elim (Bool-cases (l.id == n)) [
  | inl same ↦ rw same (ap (λ r. l ∷ r) (lines_of-append n xs ys))
  | inr differ ↦ rw differ (lines_of-append n xs ys)
]

-- A line of another id is not among them.
lines_of-other :
    (n : ℕ) (xs : List Printout) (l : Printout)
    → l.id ≢ n
    → lines_of n (xs ++ l ∷ []) ≡ lines_of n xs
lines_of-other n xs l ne =
    lines_of-append n xs (l ∷ []) ∙ rw (≢→== l.id n ne) (append-nil (lines_of n xs))

lines_of_self :
    (xs : List Printout) (l : Printout) → lines_of l.id (xs ++ l ∷ []) ≡ lines_of l.id xs ++ l ∷ []
lines_of_self xs l = lines_of-append l.id xs (l ∷ []) ∙ rw (eq→== l.id l.id refl) refl

module _ (x : ℕ) (output : List Printout) (ts : ℕ → Activation) (c : ℕ)
    (v : AllPrinted x output ts) where
  -- id = ++x;
  pub begins :
      AllPrinted (x + 1) output (update ts c (record { point = at_wait; id = x + 1; i = 0 }))
  begins =
      changed x (x + 1) output output ts c (record { point = at_wait; id = x + 1; i = 0 }) v
        (λ n l. v.fresh n (omega arith))
        (record { known = omega arith; lines = v.fresh (x + 1) (omega arith); settled = refl })
        λ j ne b.
          let old = v.printed j b in
          (
            record { known = omega (arith, old.known); lines = old.lines; settled = old.settled },
            λ e. absurd (omega (arith, old.known, e)),
          )

  -- A statement without output.
  pub moves :
      (next : Point)
      → has_begun (ts c).point ≡ true
      → is_settled next ≡ is_settled (ts c).point
      → AllPrinted x output (update ts c (record (ts c) { point = next }))
  moves next b same =
      let mine = v.printed c b in
      changed x x output output ts c (record (ts c) { point = next }) v v.fresh
        (record { known = mine.known; lines = mine.lines; settled = mine.settled ∙ sym same })
        λ j ne b'. (v.printed j b', λ e. ne (v.distinct j c b' b e))

  -- A line.
  pub prints :
      (ends : Bool) (next : Point)
      → has_begun (ts c).point ≡ true
      → ends ≡ not (is_settled (ts c).point)
      → is_settled next ≡ ends
      → AllPrinted x
          (output ++ record { id = (ts c).id; val = (ts c).i + 1; ends = ends } ∷ [])
          (update ts c (record (ts c) { point = next; i = (ts c).i + 1 }))
  prints ends next b which after =
      let mine = v.printed c b in
      let line : Printout = record { id = (ts c).id; val = (ts c).i + 1; ends = ends } in
      let even : ends ≡ is_even ((ts c).i + 1) =
        which ∙ ap not (sym mine.settled) ∙ sym (is_even-next (ts c).i) in
      changed x x output (output ++ line ∷ []) ts c
        (record (ts c) { point = next; i = (ts c).i + 1 }) v
        (λ n l.
          lines_of-other n output line (λ e. absurd (omega (arith, mine.known, e))) ∙ v.fresh n l)
        (record {
          known = mine.known;
          lines =
              lines_of_self output line
              ∙ ap (λ ls. ls ++ line ∷ []) mine.lines
              ∙ sym (numbered-next (ts c).id (ts c).i ends even);
          settled = sym even ∙ sym after;
        })
        λ j ne b'.
          let old = v.printed j b' in
          let apart = λ (e : (ts j).id ≡ (ts c).id). ne (v.distinct j c b' b e) in
          (
            record {
              known = old.known;
              lines = lines_of-other (ts j).id output line (λ e. apart (sym e)) ∙ old.lines;
              settled = old.settled;
            },
            apart,
          )
