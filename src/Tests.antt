-- ===== src/Tests.antt =====
-- Runs of the model on concrete data, and the theorems at such data.
mod Data
mod Loop
mod Races
mod Steps
mod Rows
mod Tabs
mod Forms
mod Compute
mod Members
mod Queues
mod Accounts
mod Lifecycles
mod Hooks
mod Bills
mod Signups
mod Overlaps
mod Validations
mod Trails
