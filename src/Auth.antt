-- ===== src/Auth.antt =====
-- Authentication (app/auth, and the current user of app/deps.py): password login with its lockout,
-- tokens, multi-factor enrolment and codes, and the routes that put them together.
pub mod User
pub mod Lockout
pub mod Token
pub mod Mfa
pub mod Routes
