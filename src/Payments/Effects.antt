-- ===== src/Payments/Effects.antt =====
-- What each money handler leaves in the database, whichever of its calls fail: nothing, an audit row,
-- or the whole change.
pub mod Topup
pub mod Create
pub mod Refund
pub mod Adjust
pub mod Operation
pub mod Callback
