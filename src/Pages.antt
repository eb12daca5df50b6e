-- ===== src/Pages.antt =====
-- The pages of internal/dashboard/static/app.js, by what they show.
pub mod Frame
pub mod Dashboard
pub mod Orgs
pub mod Center
