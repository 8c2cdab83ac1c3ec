-- ===== src/Python.antt =====
-- What the service uses of Python itself: exceptions, decimals, binary floats, dates.
pub mod Raised
pub mod Decimal
pub mod Float
pub mod Date
pub mod Options
