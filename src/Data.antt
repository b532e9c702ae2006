-- ===== src/Data.antt =====
-- Data that several parts of the program pass around: JSON values, exceptions as values, the
-- error dicts and the response messages of devin_proxy/upstream.py.
mod Values
mod Events
pub use Values.*
pub use Events.*
unfoldable pub use Values.{get, decimal, digits_of}
