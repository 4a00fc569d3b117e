-- ===== src/Omnichannel.antt =====
-- The omni-channel inbox under app/services/omnichannel: the tables, the guards, who a conversation
-- is assigned to, and the worker that takes inbound payloads from their queue.
pub mod Model
pub mod Access
pub mod Routing
pub mod Worker
pub mod Media
pub mod Connections
pub mod Webhooks
pub mod Handlers
pub mod Inbox
