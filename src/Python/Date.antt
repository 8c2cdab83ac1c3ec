-- ===== src/Python/Date.antt =====
-- `datetime.date`: a day, and the formats that the service gives it.
use global_payments_api.Prelude.{ℕ, String, ◌<>◌}
use global_payments_api.Python.Decimal.{show, pad}

pub record Date : Type 0 where
  pub year : ℕ
  pub month : ℕ
  pub day : ℕ

-- `strftime('%Y%m%d')`. The year is not padded, as in the C library below it.
unfoldable pub compact : Date → String
unfolding show pad
compact d = show d.year <> pad 2 d.month <> pad 2 d.day

-- `strftime('%Y/%m/%d')`
unfoldable pub slashed : Date → String
unfolding show pad
slashed d = show d.year <> "/" <> pad 2 d.month <> "/" <> pad 2 d.day

-- `str(d)`, which is `isoformat`
unfoldable pub iso : Date → String
unfolding pad
iso d = pad 4 d.year <> "-" <> pad 2 d.month <> "-" <> pad 2 d.day
