-- ===== src/Go/Time.antt =====
-- time.Time and time.Duration, as nanoseconds, and the calendar that the program reads them by.
-- An instant counts from Go's zero Time (January 1, year 1, UTC), so `IsZero` is a test with 0.
use namespace_cost_governor.Base.{ℕ, suc, ◌*◌, ◌/◌, ◌%◌, String, Bool, Option, Result}
use namespace_cost_governor.Base.Int.{ℤ, pos, negsuc, neg, ◌+ℤ◌, ◌-ℤ◌, beq_ℤ}
use namespace_cost_governor.Go.Float.{Float64}

abbrev pub Time : Type 0
Time = ℤ

abbrev pub Duration : Type 0
Duration = ℤ

abbrev pub is_zero : Time → Bool
is_zero t = beq_ℤ t (pos 0)

abbrev pub second : Duration
second = pos 1000000000

abbrev pub minute : Duration
minute = pos 60000000000

-- A parsed time: its Location is the offset from UTC, in seconds, that the text names.
pub record LocatedTime : Type 0 where
  pub instant : Time
  pub offset : ℤ

-- The calendar, and the layouts in use. `Time` is read in the zone of the process, LocatedTime in
-- its own.
pub record Calendar : Type 0 where
  pub year : Time → ℕ
  pub month : Time → ℕ
  pub day : Time → ℕ
  -- `time.Date(y, m, 1, 0, 0, 0, 0, time.UTC)`; month 0 is December of the year before
  pub first_of_month : ℕ → ℕ → Time
  -- `t.AddDate(0, 1, 0)`
  pub add_month : Time → Time
  -- `t.Format(time.RFC3339)`, `t.UTC().Format(time.RFC3339)`, `time.Parse(time.RFC3339, s)`
  pub format_rfc3339 : Time → String
  pub format_rfc3339_utc : Time → String
  pub parse_rfc3339 : String → Option LocatedTime
  -- `t.Year()`, `t.Month()` of a parsed time
  pub located_year : LocatedTime → ℕ
  pub located_month : LocatedTime → ℕ
  -- `t.Format("2006-01")`
  pub format_month : Time → String
  -- `t.Format("2006-01-02 15:04:05")`
  pub format_seconds : Time → String
  -- `time.ParseDuration(s)`
  pub parse_duration : String → Result Duration

-- `d / k` and `d % k` on int64 round towards zero.
abbrev quot : ℤ → ℕ → ℤ
quot (pos n) k = pos (n / k)
quot (negsuc n) k = neg (suc n / k)

abbrev rem : ℤ → ℕ → ℤ
rem (pos n) k = pos (n % k)
rem (negsuc n) k = neg (suc n % k)

abbrev scale : ℤ → ℕ → ℤ
scale (pos n) k = pos (n * k)
scale (negsuc n) k = neg (suc n * k)

-- The number of nanoseconds at which Unix time begins.
abbrev unix_epoch : ℤ
unix_epoch = pos 62135596800000000000

-- `t.Unix()`, which rounds down
unfoldable pub unix_seconds : Time → ℤ
unix_seconds t = elim (t -ℤ unix_epoch) [
  | pos n ↦ pos (n / 1000000000)
  | negsuc n ↦ negsuc (n / 1000000000)
]

-- `time.Unix(sec, nsec)`
unfoldable pub unix_time : ℤ → ℤ → Time
unix_time sec nsec = unix_epoch +ℤ scale sec 1000000000 +ℤ nsec

module _ (F : Float64) where
  in_unit : ℕ → Duration → F.Carrier
  in_unit unit d =
      F.add (F.of_int (quot d unit)) (F.div (F.of_int (rem d unit)) (F.of_int (pos unit)))

  -- `d.Hours()`, `d.Minutes()`
  unfoldable pub hours : Duration → F.Carrier
  unfolding in_unit
  hours d = in_unit 3600000000000 d

  unfoldable pub minutes : Duration → F.Carrier
  unfolding in_unit
  minutes d = in_unit 60000000000 d
