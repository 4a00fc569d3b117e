-- ===== src/Omnichannel/Worker.antt =====
-- app/services/omnichannel/worker.py: what the worker does with the messages of the two queues.
pub mod Delivery
pub mod Inbound
pub mod Outbound
