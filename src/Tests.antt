-- ===== src/Tests.antt =====
-- Concrete states, runs of the definitions on them, and the theorems applied to them.
mod Bugs
mod Commands
mod Plans
mod Connections
mod Counting
mod Fixtures
mod States
mod Files
mod Disks
mod Routes
mod Messages
mod Sessions
mod Schedules
mod Errors
mod Apis
mod Answers
mod Calls
mod Settings
mod Processes
