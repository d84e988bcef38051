-- ===== src/Scheduler/Sleep.antt =====
-- `gt_uninterruptible_nanosleep` of scheduler/gthr.c. What nanosleep does is an argument.
mod Tests
use ivos.Base.{
  ℕ, ◌+◌, ◌-◌, ◌*◌, ◌≤◌, ◌≡◌, ltb, ◌||◌, ℤ, pos, negsuc, refl, sym, ◌∙◌, Bool, true, false, List,
  [], ◌∷◌, Outcome, done, runs_on, if◌then◌else◌, arith, Bool-cases, inl, inr,
}

-- A time that is not negative.
pub record Timespec : Type 0 where
  pub tv_sec : ℕ
  pub tv_nsec : ℕ

-- A call of nanosleep: it sleeps to the end, fails, or is interrupted with a time remaining.
pub data Nap : Type 0 where
  slept failed : Nap
  interrupted : (remaining : Timespec) → Nap

-- The loop, for the calls of nanosleep that it makes.
unfoldable pub gt_uninterruptible_nanosleep : List Nap → (req : Timespec) → Outcome ℤ
gt_uninterruptible_nanosleep [] req = runs_on
gt_uninterruptible_nanosleep (slept ∷ naps) req = done (pos 0)
gt_uninterruptible_nanosleep (failed ∷ naps) req = done (negsuc 0)
gt_uninterruptible_nanosleep (interrupted remaining ∷ naps) req =
    let rest = gt_uninterruptible_nanosleep naps remaining in
    if ltb 0 remaining.tv_sec || ltb 0 remaining.tv_nsec then rest else done (pos 0)

abbrev pub nanoseconds : Timespec → ℕ
nanoseconds t = t.tv_sec * 1000000000 + t.tv_nsec

-- How long the calls sleep, up to the one that ends the loop: an interrupted one for what it was asked
-- less what remains.
abbrev pub asleep : List Nap → (req : Timespec) → ℕ
asleep [] req = 0
asleep (slept ∷ naps) req = nanoseconds req
asleep (failed ∷ naps) req = 0
asleep (interrupted remaining ∷ naps) req =
    let rest = asleep naps remaining in
    (nanoseconds req - nanoseconds remaining)
    + (if ltb 0 remaining.tv_sec || ltb 0 remaining.tv_nsec then rest else 0)

-- nanosleep never leaves more than it was asked for.
abbrev pub Remain : List Nap → (req : Timespec) → Type 0
Remain [] req = Unit {0}
Remain (interrupted remaining ∷ naps) req =
    (nanoseconds remaining ≤ nanoseconds req) × Remain naps remaining
Remain (nap ∷ naps) req = Unit {0}

if_true {ℓ} : {A : Type ℓ} (b : Bool) (x y : A) → b ≡ true → (if b then x else y) ≡ x
if_true true x y h = refl
if_true false x y h = cc

nothing_left : (t : Timespec) → (ltb 0 t.tv_sec || ltb 0 t.tv_nsec) ≡ false → nanoseconds t ≡ 0
nothing_left t h = ground arith

-- When it returns 0, however often it was interrupted, and nanosleep never left more than it was asked
-- for: the calls have slept for the whole time that was asked for.
gt_uninterruptible_nanosleep-asleep :
    (naps : List Nap) (req : Timespec)
    → Remain naps req
    → gt_uninterruptible_nanosleep naps req ≡ done (pos 0)
    → asleep naps req ≡ nanoseconds req
unfolding gt_uninterruptible_nanosleep
gt_uninterruptible_nanosleep-asleep [] req r h = cc
gt_uninterruptible_nanosleep-asleep (slept ∷ naps) req r h = refl
gt_uninterruptible_nanosleep-asleep (failed ∷ naps) req r h = cc
gt_uninterruptible_nanosleep-asleep (interrupted remaining ∷ naps) req (less, r) h =
    elim (Bool-cases (ltb 0 remaining.tv_sec || ltb 0 remaining.tv_nsec)) [
      | inl more ↦
          let again =
            sym (if_true (ltb 0 remaining.tv_sec || ltb 0 remaining.tv_nsec) _ (done (pos 0)) more)
            ∙ h in
          rw (more, gt_uninterruptible_nanosleep-asleep naps remaining r again) (omega arith)
      | inr all_slept ↦ rw (all_slept, nothing_left remaining all_slept) (omega arith)
    ]
