-- ===== src/Broker.antt =====
-- broker/broker.py
pub mod Subscriptions
pub mod Dispatch
pub mod MainLoop
