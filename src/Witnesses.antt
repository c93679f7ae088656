-- ===== src/Witnesses.antt =====
-- Concrete orders, quotes, books, lots and price paths, and the theorems of the development at them.
pub mod Samples
pub mod OfOrders
pub mod OfTrading
pub mod OfCompliance
pub mod OfTrailing
pub mod OfRisk
pub mod OfRiskAdvice
pub mod OfSimulator
pub mod OfAuthorization
pub mod OfOrderCompliance
