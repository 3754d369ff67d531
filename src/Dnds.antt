-- ===== src/Dnds.antt =====
-- libnvcore/src/dnds.c: the messages of the protocol and the functions that read and write their
-- fields.
pub mod Types
pub mod Unions
pub mod Members
pub mod Access
pub mod Message
pub mod Dn
pub mod Ds
pub mod Search
pub mod Contexts
pub mod Nodes
pub mod Clients
pub mod Fields
pub mod Calls
