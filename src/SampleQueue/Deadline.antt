-- ===== src/SampleQueue/Deadline.antt =====
-- `timespec_add_ms` of app/src/sample_queue.c: the moment at which a wait times out.
use i_mx6ull_water_qualit.Base.{
  ℕ, ◌+◌, ◌-◌, ◌*◌, ◌/◌, ◌%◌, ◌^◌, ◌<◌, ◌≡◌, arith, leb, if◌then◌else◌,
}
use i_mx6ull_water_qualit.Sample.{Timeval}

-- `struct timespec`
pub record Timespec : Type 0 where
  pub tv_sec : ℕ
  pub tv_nsec : ℕ

-- the nanoseconds before the carry
pub nanoseconds : ℕ → ℕ → ℕ
nanoseconds tv_usec timeout_ms = tv_usec % 1000000 * 1000 + timeout_ms % 1000 * 1000000

-- `now` is the clock; both callers have a positive timeout.
pub timespec_add_ms : Timeval → ℕ → Timespec
unfolding nanoseconds
timespec_add_ms now timeout_ms =
    let tv_sec = now.tv_sec + now.tv_usec / 1000000 + timeout_ms / 1000 in
    let tv_nsec = nanoseconds now.tv_usec timeout_ms in
    if leb 1000000000 tv_nsec
    then record { tv_sec = tv_sec + 1; tv_nsec = tv_nsec - 1000000000 }
    else record { tv_sec = tv_sec; tv_nsec = tv_nsec }

-- The deadline is the timeout after the clock, to the nanosecond; its nanoseconds are below one
-- second, as `pthread_cond_timedwait` wants them, and their sum before the carry fits a `long` of
-- 32 bits.
pub timespec_add_ms_exact :
    (now : Timeval) (timeout_ms : ℕ)
    → let ts = timespec_add_ms now timeout_ms in
      (ts.tv_sec * 1000000000 + ts.tv_nsec
        ≡ now.tv_sec * 1000000000 + now.tv_usec * 1000 + timeout_ms * 1000000)
      × (ts.tv_nsec < 1000000000)
      × (nanoseconds now.tv_usec timeout_ms < 2 ^ 31)
unfolding timespec_add_ms nanoseconds
timespec_add_ms_exact now timeout_ms = ground arith
