-- ===== src/Alerts.antt =====
-- server/include/client.h and server/src/client.cpp: the clients that the server knows, the alerts
-- that each of them asks for, and the mails that a report from a client sets off.
pub mod Kinds
pub mod Notify
pub mod Parse
pub mod Events
pub mod Registry
pub mod Delivery
