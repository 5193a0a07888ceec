-- ===== src/Tests.antt =====
-- Small corpora, and the theorems applied to them.
pub mod Samples
pub mod Plain
mod Graphs
mod Facts
mod Words
mod Queries
mod Records
mod Rulings
mod Quotes
mod Entries
mod Hashes
