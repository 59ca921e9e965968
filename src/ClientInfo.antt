-- ===== src/ClientInfo.antt =====
-- client/include/client_info.h and client/src/client_info.cpp: what the client reads from /proc and
-- puts into its report.
pub mod Rounds
pub mod Memory
pub mod Stat
pub mod Process
pub mod Report
