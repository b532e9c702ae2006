-- ===== src/Upstream.antt =====
-- devin_proxy/upstream.py: the client of the chat backend.
pub mod Errors
pub mod Frames
pub mod Usage
pub mod Chunks
pub mod Ending
pub mod Wire
pub mod Chat
