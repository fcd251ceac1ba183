-- ===== src/Diff.antt =====
-- internal/service/diff/differ.go: two traces compared, and how risky it is to release the second.
pub mod Levenshtein
pub mod Fields
pub mod Differ
