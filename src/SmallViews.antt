-- ===== src/SmallViews.antt =====
-- The components of the client that are one view.
pub mod FilePicker
pub mod Unauthorized
