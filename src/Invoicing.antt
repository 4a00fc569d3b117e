-- ===== src/Invoicing.antt =====
-- The invoicing service, app/services/invoicing.
pub mod Errors
pub mod StateMachine
pub mod Model
pub mod Exec
pub mod Service
pub mod Books
pub mod Requests
