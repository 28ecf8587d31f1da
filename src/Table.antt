-- ===== src/Table.antt =====
-- The tables, src/table.
pub mod Schema
pub mod Row
pub mod FixedTablePage
pub mod Pages
pub mod Pooled
pub mod Table
