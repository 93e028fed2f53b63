-- ===== src/Subscription/Months.antt =====
-- Laws of calendar months.
use cloudmeter.Common.{suc, ◌≤◌, ◌≡◌, true, arith, ltb, if◌then◌else◌, ◌*◌, ◌+◌}
use cloudmeter.Subscription.{Time, last_day, is_before, add_calendar_month}

-- A time that the calendar has.
pub record IsValid (t : Time) : Type 0 where
  pub month_low : 1 ≤ t.month
  pub month_high : t.month ≤ 12
  pub day_low : 1 ≤ t.day
  pub day_high : t.day ≤ last_day t.year t.month

-- A month after a time of the calendar is a time of the calendar, in the next month, and later. Its day
-- is the same or the last of that month, and its clock is the same.
pub add_calendar_month_lem :
    (t : Time)
    → IsValid t
    → let u = add_calendar_month t in
      IsValid u
      × (is_before t u ≡ true)
      × (12 * u.year + u.month ≡ suc (12 * t.year + t.month))
      × (u.day ≡ (if ltb (last_day u.year u.month) t.day then last_day u.year u.month else t.day))
      × (u.clock ≡ t.clock)
unfolding add_calendar_month is_before
add_calendar_month_lem t h = ground (arith, h)
