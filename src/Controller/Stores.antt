-- ===== src/Controller/Stores.antt =====
-- Which calls the handlers of the phases may make: each keeps a rule, provided that the rule permits the
-- statuses that the handler can store.
pub mod Steps
pub mod Waiting
pub mod Planning
pub mod Starting
pub mod Executing
