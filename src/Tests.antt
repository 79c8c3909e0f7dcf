-- ===== src/Tests.antt =====
-- Concrete users and calls on which the theorems are applied.
mod Data
mod Calls
mod Money
mod Rules
mod Withdrawals
mod Messages
mod Orders
mod Gifts
mod Schedules
mod Profiles
mod Hub
mod Popups
mod Greets
