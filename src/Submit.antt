-- ===== src/Submit.antt =====
-- cmd/job/submit: the handlers that check and complete the arguments of a submitted job.
pub mod Volume
pub mod GitSync
pub mod Template
pub mod Resources
pub mod Line
pub mod Run
pub mod Kinds
pub mod Index
