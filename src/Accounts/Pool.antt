-- ===== src/Accounts/Pool.antt =====
-- The class `Pool` of devin_proxy/accounts.py. An `Account` object lives in a heap and is named by a
-- reference, since `pick` hands out objects that `reload` may replace meanwhile. The body of each
-- method is one step. The clock reading of a call is an argument; the database is its tables.
pub mod State
pub mod Schedule
pub mod Order
pub mod Choice
pub mod Slots
pub mod Cooldown
pub mod Reload
