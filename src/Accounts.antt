-- ===== src/Accounts.antt =====
-- devin_proxy/accounts.py: the accounts, the pool that schedules them, and session pins.
pub mod Account
pub mod Failure
pub mod Quota
pub mod Pool
