-- ===== src/Csv.antt =====
-- pkg/engine/csv.go: type: csv.
pub mod Quote
pub mod Records
