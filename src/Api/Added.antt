-- ===== src/Api/Added.antt =====
-- What is added through internal/api/database is what is read back.
pub mod RecordSets
