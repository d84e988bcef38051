-- ===== src/Scheduler/Time/Laws.antt =====
-- The helpers against integer arithmetic on microseconds.
use ivos.Base.{
  pos, ◌≡◌, int_laws, ◌≤ℤ◌, ◌<ℤ◌, ◌+ℤ◌, ◌-ℤ◌, Bool-cases, inl, inr, ltb_ℤ, leb_ℤ, ltb_ℤ-lt,
  ltb_ℤ-ge, leb_ℤ-le, leb_ℤ-gt,
}
use ivos.Scheduler.Time.{Timeval, borrow, carry, timeval_subtract, timeval_add, microseconds}

-- The microseconds part is in its range.
pub record IsNormal (t : Timeval) : Type 0 where
  pub nonneg : pos 0 ≤ℤ t.tv_usec
  pub small : t.tv_usec <ℤ pos 1000000

microseconds-borrow : (r : Timeval) → microseconds (borrow r) ≡ microseconds r
unfolding microseconds borrow
microseconds-borrow r = elim (Bool-cases (ltb_ℤ r.tv_usec (pos 0))) [
  | inl neg ↦ rw neg (omega int_laws)
  | inr ok ↦ rw ok
]

microseconds-carry : (r : Timeval) → microseconds (carry r) ≡ microseconds r
unfolding microseconds carry
microseconds-carry r = elim (Bool-cases (leb_ℤ (pos 1000000) r.tv_usec)) [
  | inl over ↦ rw over (omega int_laws)
  | inr ok ↦ rw ok
]

-- What the carries have to mend.
borrow-IsNormal :
    (r : Timeval)
    → r.tv_usec <ℤ pos 1000000
    → pos 0 <ℤ r.tv_usec +ℤ pos 1000000
    → IsNormal (borrow r)
unfolding borrow
borrow-IsNormal r h l = elim (Bool-cases (ltb_ℤ r.tv_usec (pos 0))) [
  | inl neg ↦ rw neg (omega (int_laws, ltb_ℤ-lt r.tv_usec (pos 0) neg))
  | inr ok ↦ rw ok (omega (int_laws, ltb_ℤ-ge r.tv_usec (pos 0) ok))
]

carry-IsNormal : (r : Timeval) → pos 0 ≤ℤ r.tv_usec → r.tv_usec <ℤ pos 2000000 → IsNormal (carry r)
unfolding carry
carry-IsNormal r l h = elim (Bool-cases (leb_ℤ (pos 1000000) r.tv_usec)) [
  | inl over ↦ rw over (omega (int_laws, leb_ℤ-le (pos 1000000) r.tv_usec over))
  | inr ok ↦ rw ok (omega (int_laws, leb_ℤ-gt (pos 1000000) r.tv_usec ok))
]

-- The difference is exact in microseconds, for all arguments.
pub microseconds-subtract :
    (x y : Timeval) → microseconds (timeval_subtract x y) ≡ microseconds x -ℤ microseconds y
unfolding timeval_subtract
microseconds-subtract x y = rw microseconds-borrow (unfold microseconds in omega int_laws)

-- The sum is exact in microseconds, for all arguments.
pub microseconds-add :
    (x y : Timeval) → microseconds (timeval_add x y) ≡ microseconds x +ℤ microseconds y
unfolding timeval_add
microseconds-add x y = rw microseconds-carry (unfold microseconds in omega int_laws)

-- If the microseconds of both times are in their range, so are those of the difference.
pub subtract-IsNormal : (x y : Timeval) → IsNormal x → IsNormal y → IsNormal (timeval_subtract x y)
unfolding timeval_subtract
subtract-IsNormal x y hx hy =
    borrow-IsNormal (record { tv_sec = x.tv_sec -ℤ y.tv_sec; tv_usec = x.tv_usec -ℤ y.tv_usec })
      (omega int_laws) (omega int_laws)

-- If the microseconds of both times are in their range, so are those of the sum.
pub add-IsNormal : (x y : Timeval) → IsNormal x → IsNormal y → IsNormal (timeval_add x y)
unfolding timeval_add
add-IsNormal x y hx hy =
    carry-IsNormal (record { tv_sec = x.tv_sec +ℤ y.tv_sec; tv_usec = x.tv_usec +ℤ y.tv_usec })
      (omega int_laws) (omega int_laws)
