-- ===== src/Scheduler.antt =====
-- The task scheduler, src/scheduler.c and src/scheduler.h: task table, multi-level feedback queues,
-- the banker's algorithm and mailboxes. The children `State`, `Tasks`, `Queues`, `Banker` and
-- `Mailbox` hold the definitions, the others what is proved of them.
pub mod State
pub mod Tasks
pub mod Queues
pub mod Banker
pub mod Resources
pub mod Safe
pub mod Rounds
pub mod Decides
pub mod Requests
pub mod Conservation
pub mod Rows
pub mod Queued
pub mod NoOverflow
pub mod Boost
pub mod Tick
pub mod Reach
pub mod Mailbox
pub mod Mutual
pub mod Letters
mod Tests
