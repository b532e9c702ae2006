-- ===== src/Responses.antt =====
-- The Responses API: devin_proxy/responses.py.
pub mod Input
pub mod Output
pub mod Stream
pub mod Reply
pub mod Chain
pub mod Stored
pub mod Handler
pub mod WebSocket
