-- ===== src/Tests.antt =====
-- Concrete inputs for the theorems, and tests of the definitions.
mod Stream
mod Pool
mod Driver
mod Console
mod Models
mod Responses
