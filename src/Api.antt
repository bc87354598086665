-- ===== src/Api.antt =====
-- internal/api: the repository that answers lookups from the buckets of the dataset.
mod Runs
pub mod Reply
pub mod Bucket
pub mod Range
pub mod Text
pub mod Records
pub mod Matching
pub mod Types
pub mod Objects
pub mod Origins
pub mod Narrowest
pub mod Selectors
pub mod Lookup
pub mod Asn
pub mod Resources
pub mod Requests
pub mod RangeSummaries
pub mod Warmup
pub mod Handlers
