-- ===== src/Hf.antt =====
-- hf: what the remote dataset lacks.
pub mod Reconciliation
pub mod Uploads
