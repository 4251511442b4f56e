-- ===== src/Grid5000.antt =====
-- grid5000: sentence jobs, how stems are packed into batches and how a controller carries each batch to
-- its publication.
pub mod Batches
pub mod Controller
pub mod Manifest
