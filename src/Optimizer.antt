-- ===== src/Optimizer.antt =====
-- yt_media_tools/optimizer.py: the rewriting of a resolved WHERE predicate, for a query without a
-- source capability contract (`source=None`), as it is for CTEs and set-operation branches. The
-- audit trail of decisions is not modelled. An AssertionError or RuntimeError is `none`.
pub mod Bounds
pub mod Memberships
pub mod Terms
pub mod Defs
pub mod Rewriting
pub mod Sound
pub mod Shrinking
pub mod Correct
