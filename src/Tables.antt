-- ===== src/Tables.antt =====
-- Tables of documents (src/documents/TableFormatter.ts).
pub mod Formatter
pub mod Reader
pub mod Csv
