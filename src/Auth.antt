-- ===== src/Auth.antt =====
-- internal/auth: sessions, and logins by SSH key.
pub mod SessionManager
pub mod Device
pub mod Keys
