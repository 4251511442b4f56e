-- ===== src/Augmentation.antt =====
-- augmentation/: what the augmentation of the core dataset keeps and rejects.
pub mod WikivoyageMembership
pub mod RejectionLedger
