-- ===== src/Orders.antt =====
-- app/paper_trading/order_models.py, fill_models.py and orders.py: the immutable paper order, its
-- validation, and its lifecycle.
pub mod Model
pub mod Validate
pub mod Lifecycle
pub mod WellFormed
pub mod Laws
pub mod Inversion
pub mod Fills
pub mod FirstFill
pub mod Requests
pub mod Closing
