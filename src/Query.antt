-- ===== src/Query.antt =====
-- yt_media_tools/query_*.py: values, predicates and their evaluation.
pub mod Value
pub mod Model
pub mod Like
pub mod Evaluator
pub mod Semantics
pub mod Relations
pub mod Indexes
pub mod Joins
pub mod Results
pub mod Limits
