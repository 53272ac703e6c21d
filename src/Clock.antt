-- ===== src/Clock.antt =====
-- backend/lib/dates.py. A timestamp is the wall clock that `to_ist` returns, in microseconds:
-- India has kept one offset since long before the program's data, so the order of the wall clock is
-- the order of the instants. Days are numbered as `toordinal` does, from the first of January of year 1.
use theta_plus.Base.{ℕ, ◌+◌, ◌*◌, ◌/◌, ◌%◌, ◌<◌, ◌≡◌, ◌⊎◌, if◌then◌else◌, ltb, arith}
use theta_plus.Base.Raises.{Raises, ok, raised, overflow_error}

abbrev pub Timestamp : Type 0
Timestamp = ℕ

abbrev pub minute : ℕ
minute = 60_000_000

abbrev pub day : ℕ
day = 1440 * minute

-- `dt.date()`, as the number of the day
unfoldable pub date_of : Timestamp → ℕ
date_of t = t / day

-- `dt.time()`, in microseconds since midnight
unfoldable pub time_of : Timestamp → ℕ
time_of t = t % day

-- The end of the year 9999, after which there is no `datetime`.
abbrev pub end_of_time : Timestamp
end_of_time = 3_652_060 * day

-- `now + timedelta(minutes=minutes)`, which raises OverflowError outside the range of `datetime`.
unfoldable pub plus_minutes : Timestamp → ℕ → Raises Timestamp
plus_minutes now minutes =
    if ltb (now + minutes * minute) end_of_time
    then ok (now + minutes * minute)
    else raised overflow_error

pub plus_minutes-cases :
    (now : Timestamp) (minutes : ℕ)
    → (plus_minutes now minutes ≡ ok (now + minutes * minute))
      ⊎ (plus_minutes now minutes ≡ raised overflow_error)
unfolding plus_minutes
plus_minutes-cases now minutes = ground arith

pub plus_minutes-ok :
    (now : Timestamp) (minutes : ℕ)
    → now + minutes * minute < end_of_time
    → plus_minutes now minutes ≡ ok (now + minutes * minute)
unfolding plus_minutes
plus_minutes-ok now minutes h = ground (arith, h)
