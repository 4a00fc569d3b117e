-- ===== src/Tests.antt =====
-- Runs of the theorems at concrete inputs.
mod Core
mod Email
mod Handlers
mod Inbox
mod Invoicing
mod Omnichannel
mod Secrets
mod Storage
mod Webhooks
