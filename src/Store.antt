-- ===== src/Store.antt =====
-- src/store.rs: the session store, its tables as the SQL of the migrations defines them.
pub mod Turn
pub mod Session
pub mod Tables
pub mod Index
pub mod Rollup
pub mod Recording
pub mod Ids
pub mod Service
pub mod Seed
