-- ===== src/Models.antt =====
-- The model catalog of devin_proxy/models.py.
pub mod Names
pub mod Settings
pub mod Catalog
pub mod Route
pub mod Efforts
pub mod Defaults
pub mod Sync
pub mod Served
