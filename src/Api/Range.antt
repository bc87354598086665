-- ===== src/Api/Range.antt =====
-- internal/api/bbolt.go: the pages of a range query.
mod Runs
pub mod Direct
pub mod Pages
pub mod Resume
pub mod Cursor
pub mod RoundTrip
pub mod Page
pub mod Starts
pub mod Inside
pub mod Limit
