-- ===== src/Fsops.antt =====
-- internal/fsops: sandboxed file operations as a Linux user.
pub mod Access
pub mod Impersonate
pub mod Owner
pub mod Sandbox
pub mod Sys
pub mod Ops
