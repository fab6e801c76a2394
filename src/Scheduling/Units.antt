-- ===== src/Scheduling/Units.antt =====
-- lib/constants/timeframes.js, lib/utils/closestDivisor.js and
-- lib/domain-collectors/utils/ScheduleUnitContext.js.
pub mod Divisor
use Prim.Native.String.{String}
use wolfram_price_feed_infra.Base.{
  ℕ, zero, suc, ◌+◌, ◌*◌, ◌/◌, ◌-◌, ◌%◌, Option, none, some, ltb, ◌==◌, if◌then◌else◌,
}

abbrev pub milliseconds_in_a_second : ℕ
milliseconds_in_a_second = 1000

abbrev pub milliseconds_in_a_minute : ℕ
milliseconds_in_a_minute = 60000

abbrev pub milliseconds_in_an_hour : ℕ
milliseconds_in_an_hour = 3600000

abbrev pub milliseconds_in_a_day : ℕ
milliseconds_in_a_day = 86400000

abbrev pub hours_in_a_day : ℕ
hours_in_a_day = 24

abbrev pub minutes_in_an_hour : ℕ
minutes_in_an_hour = 60

abbrev pub seconds_in_a_minute : ℕ
seconds_in_a_minute = 60

-- How many of the unit make the next larger one, its length, and the rest of the cron string.
pub record ScheduleUnit : Type 0 where
  pub unit : ℕ
  pub time_unit_divisor : ℕ
  pub cron_string : String

abbrev pub second_unit : ScheduleUnit
second_unit = record {
  unit = seconds_in_a_minute;
  time_unit_divisor = milliseconds_in_a_second;
  cron_string = "* * * * *";
}

abbrev pub minute_unit : ScheduleUnit
minute_unit = record {
  unit = minutes_in_an_hour;
  time_unit_divisor = milliseconds_in_a_minute;
  cron_string = "* * * *";
}

abbrev pub hour_unit : ScheduleUnit
hour_unit = record {
  unit = hours_in_a_day;
  time_unit_divisor = milliseconds_in_an_hour;
  cron_string = "* * *";
}

unfoldable pub get_context : ℕ → ScheduleUnit
get_context interval_in_ms =
    if ltb interval_in_ms milliseconds_in_a_minute
    then second_unit
    else if ltb interval_in_ms milliseconds_in_an_hour
    then minute_unit
    else hour_unit

-- The stack frames that `closestDivisor` may use. The recursion ends by `RangeError` when they
-- are spent, which `none` stands for. `num` is never 0 where a test divides by it and passes:
-- `target % 0` is `NaN` in the source and `target` here, and neither is 0 for a positive `target`.
unfoldable pub closest_divisor : ℕ → ℕ → ℕ → Option ℕ
closest_divisor zero num target = none
closest_divisor (suc frames) num target =
    let rest = closest_divisor frames (num + 1) target in
    if target % num == 0 then some num else rest

-- `Math.ceil(a / b)` at a positive `b`.
unfoldable pub ceil_div : ℕ → ℕ → ℕ
ceil_div a b = (a + (b - 1)) / b
