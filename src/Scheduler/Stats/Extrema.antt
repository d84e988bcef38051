-- ===== src/Scheduler/Stats/Extrema.antt =====
-- The running minimum and maximum against the list of all samples.
use mathlib.Core.List.{Memᴰ}
use ivos.Base.{◌≡◌, refl, sym, subst, true, false, ◌⊎◌, inl, inr, List, [], ◌∷◌, arith}
use ivos.Scheduler.Time.{Timeval, init_timeval, timeval_is_zero}
use ivos.Scheduler.Stats.{
  Stats, before, next_min, next_max, record_period, record_periods, no_stats,
}

abbrev pub All {ℓ κ} : {A : Type ℓ} → (A → Type κ) → List A → Type κ
All P [] = Unit
All P (x ∷ xs) = P x × All P xs

-- A sample of the list that none of them is before, and one that is before none of them.
abbrev pub IsLeast : Timeval → List Timeval → Type 0
IsLeast m ts = Memᴰ m ts × All (λ t. before t m ≡ false) ts

abbrev pub IsGreatest : Timeval → List Timeval → Type 0
IsGreatest m ts = Memᴰ m ts × All (λ t. before m t ≡ false) ts

abbrev pub NonZero : Timeval → Type 0
NonZero t = timeval_is_zero t ≡ false

-- "Not before" is a total preorder.
before_irrefl : (t : Timeval) → before t t ≡ false
before_irrefl t = ground arith

before_asym : (s t : Timeval) → before s t ≡ true → before t s ≡ false
before_asym s t h = ground arith

not_before_trans : (r s t : Timeval) → before s r ≡ false → before t s ≡ false → before t r ≡ false
not_before_trans r s t h k = ground arith

-- The two extrema alone, over the samples after the first.
mins : Timeval → List Timeval → Timeval
mins m [] = m
mins m (t ∷ ts) = mins (next_min t m) ts

maxes : Timeval → List Timeval → Timeval
maxes m [] = m
maxes m (t ∷ ts) = maxes (next_max t m) ts

min_time-record_periods :
    (s : Stats) (ts : List Timeval) → (record_periods s ts).min_time ≡ mins s.min_time ts
unfolding record_periods mins record_period
min_time-record_periods s [] = refl
min_time-record_periods s (t ∷ ts) = min_time-record_periods (record_period t s) ts

max_time-record_periods :
    (s : Stats) (ts : List Timeval) → (record_periods s ts).max_time ≡ maxes s.max_time ts
unfolding record_periods maxes record_period
max_time-record_periods s [] = refl
max_time-record_periods s (t ∷ ts) = max_time-record_periods (record_period t s) ts

module _ (m t : Timeval) (nonzero : NonZero m) where
  next_min-cases :
      ((next_min t m ≡ t) × (before t m ≡ true)) ⊎ ((next_min t m ≡ m) × (before t m ≡ false))
  unfolding next_min
  next_min-cases = ground arith

  next_max-cases :
      ((next_max t m ≡ t) × (before m t ≡ true)) ⊎ ((next_max t m ≡ m) × (before m t ≡ false))
  unfolding next_max
  next_max-cases = ground arith

-- A member of a shorter list, with one more sample behind the first or in front.
skip_second : {r m t : Timeval} {ts : List Timeval} → Memᴰ r (m ∷ ts) → Memᴰ r (m ∷ t ∷ ts)
skip_second (Memᴰ.head e) = Memᴰ.head e
skip_second (Memᴰ.tail i) = Memᴰ.tail (Memᴰ.tail i)

mins-IsLeast :
    (m : Timeval) (ts : List Timeval) → NonZero m → All NonZero ts → IsLeast (mins m ts) (m ∷ ts)
unfolding mins
mins-IsLeast m [] h hs = (Memᴰ.head refl, (before_irrefl m, tt))
mins-IsLeast m (t ∷ ts) h hs = elim (next_min-cases m t h) [
  | inl (e, less) ↦
      subst (λ n. IsLeast (mins n ts) (m ∷ t ∷ ts)) (sym e)
        (let (i, (first, rest)) = mins-IsLeast t ts hs.0 hs.1 in
          (Memᴰ.tail i, (not_before_trans _ t m first (before_asym t m less), (first, rest))))
  | inr (e, more) ↦
      subst (λ n. IsLeast (mins n ts) (m ∷ t ∷ ts)) (sym e)
        (let (i, (first, rest)) = mins-IsLeast m ts h hs.1 in
          (skip_second i, (first, (not_before_trans _ m t first more, rest))))
]

maxes-IsGreatest :
    (m : Timeval) (ts : List Timeval)
    → NonZero m
    → All NonZero ts
    → IsGreatest (maxes m ts) (m ∷ ts)
unfolding maxes
maxes-IsGreatest m [] h hs = (Memᴰ.head refl, (before_irrefl m, tt))
maxes-IsGreatest m (t ∷ ts) h hs = elim (next_max-cases m t h) [
  | inl (e, more) ↦
      subst (λ n. IsGreatest (maxes n ts) (m ∷ t ∷ ts)) (sym e)
        (let (i, (first, rest)) = maxes-IsGreatest t ts hs.0 hs.1 in
          (
            Memᴰ.tail i,
            (not_before_trans m t (maxes t ts) (before_asym m t more) first, (first, rest)),
          ))
  | inr (e, less) ↦
      subst (λ n. IsGreatest (maxes n ts) (m ∷ t ∷ ts)) (sym e)
        (let (i, (first, rest)) = maxes-IsGreatest m ts h hs.1 in
          (skip_second i, (first, (not_before_trans t m (maxes m ts) less first, rest))))
]

-- From fresh statistics, any samples none of which is zero: the minimum recorded is the least
-- sample, the maximum recorded the greatest.
record_periods-extrema :
    (t : Timeval) (ts : List Timeval)
    → NonZero t
    → All NonZero ts
    → IsLeast (record_periods no_stats (t ∷ ts)).min_time (t ∷ ts)
      × IsGreatest (record_periods no_stats (t ∷ ts)).max_time (t ∷ ts)
unfolding next_min next_max mins maxes
record_periods-extrema t ts h hs = (
  subst (λ m. IsLeast m (t ∷ ts)) (sym (min_time-record_periods no_stats (t ∷ ts)))
      (mins-IsLeast t ts h hs),
  subst (λ m. IsGreatest m (t ∷ ts)) (sym (max_time-record_periods no_stats (t ∷ ts)))
      (maxes-IsGreatest t ts h hs),
)

-- A sample of length zero is forgotten: whatever came before it, and although it is less than the
-- next sample, the minimum after the two is the next sample.
pub record_periods-forgets_zero :
    (s : Stats) (t : Timeval)
    → before init_timeval t ≡ true
    → before s.min_time init_timeval ≡ false
    → (record_periods s (init_timeval ∷ t ∷ [])).min_time ≡ t
unfolding record_periods record_period
record_periods-forgets_zero s t h k = ground arith
