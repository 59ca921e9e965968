-- ===== src/Tests.antt =====
-- The properties at concrete inputs.
pub mod Runtime
pub mod Data
pub mod Trees
pub mod Postgres
mod Server
mod Startup
mod System
mod Prototype
mod Agent
mod Proc
mod Odb
