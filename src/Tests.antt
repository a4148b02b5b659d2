-- ===== src/Tests.antt =====
-- Runs of the model on concrete inputs, and the theorems applied to them.
pub mod CacheRuns
pub mod TextRuns
pub mod NetRuns
pub mod ListRuns
pub mod ProcRuns
pub mod SystemRuns
pub mod JniRuns
pub mod InputRuns
