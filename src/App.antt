-- ===== src/App.antt =====
-- devin_proxy/app.py: the parts of the application that do not belong to the web framework.
pub mod ToolAgg
pub mod Messages
pub mod Request
pub mod Keys
pub mod Inflight
pub mod Slots
pub mod ReqLog
pub mod Driver
pub mod Ends
pub mod Completion
pub mod Chat
