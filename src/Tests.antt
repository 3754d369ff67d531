-- ===== src/Tests.antt =====
-- The development at concrete inputs: each theorem with hypotheses is applied where they hold.
pub mod Keys
pub mod Data
mod Pool
mod Links
mod Names
pub mod Network
mod Frames
mod Handlers
mod Addresses
pub mod Codec
mod Messages
mod Agents
mod Requests
mod Buffers
