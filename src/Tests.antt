-- ===== src/Tests.antt =====
-- A small server for examples, and what the theorems say of it.
pub mod Fixture
pub mod Paths
pub mod Login
pub mod Requests
pub mod Sizes
pub mod Index
pub mod Commands
pub mod Mime
pub mod Routes
