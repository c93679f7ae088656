-- ===== src/Compliance.antt =====
-- app/compliance: cash settlement and the Good Faith Violation check of a sale.
pub mod Calendar
pub mod Lots
pub mod Sell
pub mod Evaluate
pub mod Approval
pub mod Requests
pub mod Due
pub mod NextDate
pub mod Ledger
