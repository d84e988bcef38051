-- ===== src/Scheduler/Stats.antt =====
-- The running statistics of scheduler/gthr.c: minimum, maximum, and Welford's average and variance.
mod Tests
pub mod Extrema
use ivos.Base.{
  ℕ, ◌+◌, ◌%◌, ◌^◌, ℤ, pos, ltb_ℤ, eqb_ℤ, Bool, ◌&&◌, ◌||◌, if◌then◌else◌, List, [], ◌∷◌,
}
use ivos.Scheduler.Time.{Timeval, init_timeval, timeval_is_zero}

-- A `double` as the expression that computes it. The machine's rounding is an interpretation of the
-- operations, so that equal expressions give equal doubles on any machine.
pub data Double : Type 0 where
  of_int : ℤ → Double
  of_unsigned : ℕ → Double
  add : Double → Double → Double
  sub : Double → Double → Double
  mul : Double → Double → Double
  div : Double → Double → Double
  sqrt : Double → Double

-- tv->tv_sec * 1000000.0 + tv->tv_usec
unfoldable pub timeval_to_microseconds : Timeval → Double
timeval_to_microseconds tv = add (mul (of_int tv.tv_sec) (of_int (pos 1000000))) (of_int tv.tv_usec)

-- The fields of `struct gt` about one kind of time slice, run or wait.
pub record Stats : Type 0 where
  pub count : ℕ
  pub min_time : Timeval
  pub max_time : Timeval
  pub last_time : Timeval
  pub avg_us : Double
  pub var_us : Double

abbrev pub before : Timeval → Timeval → Bool
before x y = ltb_ℤ x.tv_sec y.tv_sec || (eqb_ℤ x.tv_sec y.tv_sec && ltb_ℤ x.tv_usec y.tv_usec)

unfoldable pub next_min : Timeval → Timeval → Timeval
next_min new min = if timeval_is_zero min || before new min then new else min

unfoldable pub next_max : Timeval → Timeval → Timeval
next_max new max = if timeval_is_zero max || before max new then new else max

-- `delta` and `delta2` of Welford's algorithm are taken before and after the average moves.
unfoldable pub next_avg : Double → Double → ℕ → Double
next_avg value avg count = add avg (div (sub value avg) (of_unsigned count))

unfoldable pub next_var : Double → Double → Double → ℕ → Double
unfolding next_avg
next_var value avg var count = add var (mul (sub value avg) (sub value (next_avg value avg count)))

unfoldable pub update_running_stats : Timeval → ℕ → Stats → Stats
unfolding next_min next_max next_avg next_var timeval_to_microseconds
update_running_stats new count s =
    let value = timeval_to_microseconds new in
    record s {
      min_time = next_min new s.min_time;
      max_time = next_max new s.max_time;
      avg_us = next_avg value s.avg_us count;
      var_us = next_var value s.avg_us s.var_us count;
    }

-- What a period of one kind adds: `run_count++`, `last_run_time = elapsed`, and the statistics.
unfoldable pub record_period : Timeval → Stats → Stats
unfolding update_running_stats
record_period elapsed s =
    let count = (s.count + 1) % 2 ^ 64 in
    update_running_stats elapsed count (record s { count = count; last_time = elapsed })

-- The fields as `init_thread_stats` sets them.
abbrev pub no_stats : Stats
no_stats = record {
  count = 0;
  min_time = init_timeval;
  max_time = init_timeval;
  last_time = init_timeval;
  avg_us = of_int (pos 0);
  var_us = of_int (pos 0);
}

unfoldable pub record_periods : Stats → List Timeval → Stats
record_periods s [] = s
record_periods s (t ∷ ts) = record_periods (record_period t s) ts
