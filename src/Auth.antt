-- ===== src/Auth.antt =====
-- Owners and their sessions (auth/service.py and auth/passwords.py of the API).
pub mod Model
pub mod Passwords
pub mod Service
pub mod Sessions
pub mod Sound
pub mod Renewed
pub mod Dead
pub mod Ended
pub mod Histories
pub mod Lasting
pub mod Bounds
pub mod Issued
mod Examples
pub mod RateLimit
