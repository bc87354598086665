-- ===== src/Boltstore.antt =====
-- internal/boltstore: the record store's keys and values, its builder and its selectors.
pub mod Encoder
pub mod Decoder
pub mod Record
pub mod Summary
pub mod Keys
pub mod Ranges
pub mod Lpm
pub mod Trie
pub mod RouteLpm
pub mod Selection
pub mod Build
pub mod Summaries
