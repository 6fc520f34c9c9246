-- ===== src/Catalog.antt =====
-- The catalog's description of tables.
pub mod Schema
