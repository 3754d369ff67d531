-- ===== src/Dnds/Fields.antt =====
-- The fields of the messages of libnvcore/src/dnds.c that have both accessors.
pub mod Headers
pub mod Numbers
pub mod Texts
pub mod Macs
pub mod Addresses
pub mod ObjectNumbers
pub mod ObjectTexts
pub mod ObjectAddresses
pub mod Changes
pub mod ObjectChanges
