-- ===== src/Tests.antt =====
-- Each theorem at a concrete input, and runs of the definitions.
mod Errors
mod Scheduler
mod Locks
mod Queues
mod Requests
mod Registries
mod Calls
mod Timers
mod Startup
mod Contexts
