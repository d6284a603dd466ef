-- ===== src/AuthService.antt =====
-- services/auth-service: the service that keeps users, cases and assignments, and gives out tokens.
pub mod Store
pub mod Admin
pub mod Tables
pub mod Sound
pub mod Cases
pub mod History
pub mod Closing
pub mod Numbers
pub mod Login
pub mod Examples
