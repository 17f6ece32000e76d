-- ===== src/Table.antt =====
-- pkg/engine/table.go: type: table.
pub mod Cells
pub mod Aligned
pub mod Narrow
pub mod Fields
pub mod Words
