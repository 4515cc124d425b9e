-- ===== src/Redis.antt =====
-- What backend/app/core makes of Redis: send limits, the events of a conversation, and the answers
-- that a run waits for. Redis itself is a parameter of each, with the laws of the commands that are used.
pub mod Limits
pub mod Stream
pub mod Delivered
pub mod Wakeup
pub mod Answered
pub mod Lock
mod Tests
