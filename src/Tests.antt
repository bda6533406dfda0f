-- ===== src/Tests.antt =====
-- Runs of the definitions on concrete inputs, and the theorems at inputs that meet their
-- hypotheses.
pub mod Toy
mod Keyrings
mod Envelopes
mod CookieSessions
mod Pages
mod Forms
mod Rows
mod Lifetimes
mod Refreshes
mod Cookies
mod Requests
mod Logins
mod Attempts
mod Setup
mod Rendered
