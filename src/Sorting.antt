-- ===== src/Sorting.antt =====
-- Python's `list.sort`: stable sorting by a three-way comparison, here by insertion, and what it
-- does. Two rows are tied where the comparison is `eq`; they keep their order.
pub mod Defs
pub mod Laws
pub mod Stages
