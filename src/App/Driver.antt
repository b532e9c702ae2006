-- ===== src/App/Driver.antt =====
-- `_iter_chat` of devin_proxy/app.py, the failover driver.
pub mod Attempt
pub mod Loop
pub mod Passes
pub mod Turns
pub mod Replies
pub mod Ends
pub mod Rejected
