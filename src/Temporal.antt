-- ===== src/Temporal.antt =====
-- yt_media_tools/temporal_bounds.py: the bounds on date and datetime fields that a WHERE implies. A
-- date or datetime is its ordinal, as in `day` and `instant`. `parse_date_literal` and
-- `parse_datetime_literal` in their context are given by the caller, and so is `str.casefold`.
pub mod Bounds
pub mod Inference
