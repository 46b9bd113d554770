-- ===== src/Cache/Clock.antt =====
-- cache_part.cpp: the `gettimeofday` of the Windows build, by which a cache's file is named.
use socket_server.Prelude.{
  ℕ, ◌+◌, ◌-◌, ◌*◌, ◌/◌, ◌%◌, ◌^◌, ◌≤◌, ◌<◌, ◌≡◌, ◌↔◌, refl, ap, ◌∙◌, ℤ, pos, negsuc, minus_one,
  int32, ltb, if◌then◌else◌, arith,
}

-- SYSTEMTIME: the members that are read
pub record SystemTime : Type 0 where
  pub year : ℕ
  pub month : ℕ
  pub day : ℕ
  pub hour : ℕ
  pub minute : ℕ
  pub second : ℕ
  pub milliseconds : ℕ

-- struct tm: the members that `mktime` reads
pub record Tm : Type 0 where
  pub tm_year : ℤ
  pub tm_mon : ℤ
  pub tm_mday : ℕ
  pub tm_hour : ℕ
  pub tm_min : ℕ
  pub tm_sec : ℕ
  pub tm_isdst : ℤ

pub record LocalClock (W : Type 0) : Type 0 where
  pub get_local_time : W → SystemTime × W
  pub mktime : Tm → W → ℤ × W

-- `a - b` on `int`
pub int_sub : ℕ → ℕ → ℤ
int_sub a b = if ltb a b then negsuc (b - a - 1) else pos (a - b)

unfoldable pub tm_of : SystemTime → Tm
unfolding int_sub
tm_of wtm = record {
  tm_year = int_sub wtm.year 1900;
  tm_mon = int_sub wtm.month 1;
  tm_mday = wtm.day;
  tm_hour = wtm.hour;
  tm_min = wtm.minute;
  tm_sec = wtm.second;
  tm_isdst = minus_one;
}

-- `(long)clock`: a `long` is signed and has 32 bits in this build.
unfoldable pub long_32 : ℤ → ℤ
long_32 (pos n) = int32 n
long_32 (negsuc n) = int32 (2 ^ 32 - 1 - n % 2 ^ 32)

-- What `%lu` prints of a `long` of 32 bits: its pattern, as an unsigned number.
unfoldable pub printed_lu : ℤ → ℕ
printed_lu (pos n) = n
printed_lu (negsuc n) = 2 ^ 32 - 1 - n

-- `tv_sec` and `tv_usec`. It returns 0 always. `Stdio.gettimeofday` has the first as `%lu` prints it.
unfoldable pub gettimeofday : {W : Type 0} → LocalClock W → W → (ℤ × ℕ) × W
unfolding tm_of long_32
gettimeofday clock w =
    let wtm = clock.get_local_time w in
    let t = clock.mktime (tm_of wtm.0) wtm.1 in ((long_32 t.0, wtm.0.milliseconds * 1000), t.1)

-- What the documents of GetLocalTime and of mktime say, for a local calendar by which
-- `seconds_of year month day hour minute second` is a time in seconds since 1970. Of times that it does
-- not place between 1970 and 2106 nothing is said.
pub record IsCalendar {W : Type 0} (clock : LocalClock W) (seconds_of : ℕ → ℕ → ℕ → ℕ → ℕ → ℕ → ℕ)
    : Type 0 where
  pub month_ge : (w : W) → 1 ≤ (clock.get_local_time w).0.month
  pub fraction : (w : W) → (clock.get_local_time w).0.milliseconds < 1000
  -- The members of a `struct tm` count years from 1900 and months from 0.
  pub mktime :
      (years months day hour minute second : ℕ) (w : W)
      → seconds_of (1900 + years) (months + 1) day hour minute second < 2 ^ 32
      → (clock.mktime
          (record {
            tm_year = pos years;
            tm_mon = pos months;
            tm_mday = day;
            tm_hour = hour;
            tm_min = minute;
            tm_sec = second;
            tm_isdst = minus_one;
          })
          w).0
        ≡ pos (seconds_of (1900 + years) (months + 1) day hour minute second)

-- The second since 1970 that a SYSTEMTIME is, by the calendar.
abbrev pub second_of : (ℕ → ℕ → ℕ → ℕ → ℕ → ℕ → ℕ) → SystemTime → ℕ
second_of seconds_of t = seconds_of t.year t.month t.day t.hour t.minute t.second

-- The system is at the millisecond `ms` since 1970, before the year 2106, and in a year from 1900 on.
pub record IsAt {W : Type 0} (clock : LocalClock W) (seconds_of : ℕ → ℕ → ℕ → ℕ → ℕ → ℕ → ℕ)
    (ms : ℕ) (w : W) : Type 0 where
  pub year_ge : 1900 ≤ (clock.get_local_time w).0.year
  pub in_range : second_of seconds_of (clock.get_local_time w).0 < 2 ^ 32
  pub together :
      ms
      ≡ second_of seconds_of (clock.get_local_time w).0 * 1000
        + (clock.get_local_time w).0.milliseconds

-- What the code makes of the second and the millisecond in it.
abbrev told : ℕ → ℕ → ℤ × ℕ
told s ms = (if ltb s (2 ^ 31) then pos s else negsuc (2 ^ 32 - 1 - s), ms * 1000)

told_inj : (s t a b : ℕ) → s < 2 ^ 32 → t < 2 ^ 32 → told s a ≡ told t b → (s ≡ t) × (a ≡ b)
told_inj s t a b h k e = ground arith

int_sub_lem : (a b : ℕ) → b ≤ a → int_sub a b ≡ pos (a - b)
unfolding int_sub
int_sub_lem a b h = ground arith

module _ {W : Type 0} (clock : LocalClock W) (seconds_of : ℕ → ℕ → ℕ → ℕ → ℕ → ℕ → ℕ)
    (calendar : IsCalendar clock seconds_of) where
  mktime-tm_of :
      (w v : W)
      → 1900 ≤ (clock.get_local_time w).0.year
      → second_of seconds_of (clock.get_local_time w).0 < 2 ^ 32
      → (clock.mktime (tm_of (clock.get_local_time w).0) v).0
        ≡ pos (second_of seconds_of (clock.get_local_time w).0)
  unfolding tm_of
  mktime-tm_of w v g h =
      let t = (clock.get_local_time w).0 in
      let y : 1900 + (t.year - 1900) ≡ t.year = omega (arith, g) in
      let m : t.month - 1 + 1 ≡ t.month = omega (arith, calendar.month_ge w) in
      let e =
        calendar.mktime (t.year - 1900) (t.month - 1) t.day t.hour t.minute t.second v
          (rw (y, m) h) in
      rw (int_sub_lem t.year 1900 g, int_sub_lem t.month 1 (calendar.month_ge w))
        (e ∙ rw (y, m) refl)

  gettimeofday-told :
      (m : ℕ) (v : W)
      → IsAt clock seconds_of m v
      → (gettimeofday clock v).0
        ≡ told
            (second_of seconds_of (clock.get_local_time v).0)
            (clock.get_local_time v).0.milliseconds
  unfolding gettimeofday long_32
  gettimeofday-told m v at =
      rw (mktime-tm_of v (clock.get_local_time v).1 at.year_ge at.in_range)
        (ground (arith, at.in_range))

  -- At a millisecond before the year 2106 by the local calendar, from whose year, month, day, hour,
  -- minute and second mktime counts, `gettimeofday` tells the microseconds in the second, fewer than
  -- 1000000; its seconds are those since 1970 up to 2 ^ 31 - 1, in 2038, and 2 ^ 32 less from there on,
  -- a negative number. What `%lu` prints of them is the second at any of these times. Two times are
  -- equal if and only if the milliseconds are.
  pub gettimeofday-millisecond :
      (m n : ℕ) (v w : W)
      → IsAt clock seconds_of m v
      → IsAt clock seconds_of n w
      → ((gettimeofday clock v).0.0
          ≡ (if ltb m (2 ^ 31 * 1000) then pos (m / 1000) else negsuc (2 ^ 32 - 1 - m / 1000)))
        × (printed_lu (gettimeofday clock v).0.0 * 1000000 + (gettimeofday clock v).0.1 ≡ m * 1000)
        × ((gettimeofday clock v).0.1 < 1000000)
        × (((gettimeofday clock v).0 ≡ (gettimeofday clock w).0) ↔ (m ≡ n))
  unfolding printed_lu
  gettimeofday-millisecond m n v w a b =
      let s = second_of seconds_of (clock.get_local_time v).0 in
      let t = second_of seconds_of (clock.get_local_time w).0 in
      let x = (clock.get_local_time v).0.milliseconds in
      let y = (clock.get_local_time w).0.milliseconds in
      rw (gettimeofday-told m v a, gettimeofday-told n w b)
        (
          ground (arith, a.together, a.in_range, calendar.fraction v),
          ground (arith, a.together, a.in_range),
          omega (arith, calendar.fraction v),
          (
            (λ same.
                let e = told_inj s t x y a.in_range b.in_range same in
                omega (arith, a.together, b.together, e.0, e.1)),
            (λ same.
                let e : s ≡ t =
                  omega (
                    arith,
                    same,
                    a.together,
                    b.together,
                    calendar.fraction v,
                    calendar.fraction w,
                  ) in
                let u : x ≡ y = omega (arith, same, e, a.together, b.together) in
                ap (λ z. told z x) e ∙ ap (told t) u),
          ),
        )
