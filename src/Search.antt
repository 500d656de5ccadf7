-- ===== src/Search.antt =====
-- internal/search: the index of markdown paths and the ranking of its answers.
pub mod Index
pub mod Build
pub mod Score
pub mod Query
