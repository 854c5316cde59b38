-- ===== src/HashMap.antt =====
-- DataStructures/HashMap/include/hash_map/hash_map.hpp and hash_map_bucket.hpp.
pub mod Key
pub mod Bucket
pub mod Table
pub mod Entries
pub mod Erasure
pub mod Slots
pub mod Operations
pub mod Flatten
pub mod Rehash
pub mod Lookups
pub mod Copy
