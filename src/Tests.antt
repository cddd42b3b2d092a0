-- ===== src/Tests.antt =====
-- The tests and the witnesses of the properties, on a small host.
pub mod Codec
pub mod Host
mod Evidence
mod Values
mod Folder
mod Pcr
mod Key
mod Server
mod Answers
mod Store
mod RoundTrip
mod Routes
mod Kernel
mod Forms
mod Parts
