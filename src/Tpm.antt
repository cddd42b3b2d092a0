-- ===== src/Tpm.antt =====
-- src/tpm.rs: the TPM backend, and the combined TPM and TDX attestation.
pub mod Types
pub mod Config
pub mod Nonce
pub mod Folder
pub mod Command
pub mod Machine
pub mod Cycle
pub mod Combined
