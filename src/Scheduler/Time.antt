-- ===== src/Scheduler/Time.antt =====
-- The `struct timeval` helpers of scheduler/gthr.c. The `long` fields are integers without a bound.
mod Tests
pub mod Laws
use ivos.Base.{ℤ, pos, ◌+ℤ◌, ◌-ℤ◌, ltb_ℤ, leb_ℤ, eqb_ℤ, scale, Bool, ◌&&◌, if◌then◌else◌}

pub record Timeval : Type 0 where
  pub tv_sec : ℤ
  pub tv_usec : ℤ

-- The two branches of the carry, over what the first two lines computed.
borrow : Timeval → Timeval
borrow r =
    if ltb_ℤ r.tv_usec (pos 0)
    then record { tv_sec = r.tv_sec -ℤ pos 1; tv_usec = r.tv_usec +ℤ pos 1000000 }
    else r

carry : Timeval → Timeval
carry r =
    if leb_ℤ (pos 1000000) r.tv_usec
    then record { tv_sec = r.tv_sec +ℤ pos 1; tv_usec = r.tv_usec -ℤ pos 1000000 }
    else r

unfoldable pub timeval_subtract : Timeval → Timeval → Timeval
unfolding borrow
timeval_subtract x y =
    borrow (record { tv_sec = x.tv_sec -ℤ y.tv_sec; tv_usec = x.tv_usec -ℤ y.tv_usec })

unfoldable pub timeval_add : Timeval → Timeval → Timeval
unfolding carry
timeval_add x y = carry (record { tv_sec = x.tv_sec +ℤ y.tv_sec; tv_usec = x.tv_usec +ℤ y.tv_usec })

abbrev pub init_timeval : Timeval
init_timeval = record { tv_sec = pos 0; tv_usec = pos 0 }

abbrev pub timeval_is_zero : Timeval → Bool
timeval_is_zero tv = eqb_ℤ tv.tv_sec (pos 0) && eqb_ℤ tv.tv_usec (pos 0)

-- The time in microseconds, exact: the source computes it in `double`.
unfoldable pub microseconds : Timeval → ℤ
microseconds tv = scale tv.tv_sec 1000000 +ℤ tv.tv_usec
