-- ===== src/Examples.antt =====
-- The theorems at concrete inputs.
pub mod Clock
mod Ledgers
mod Links
mod Requests
mod Retries
mod Plans
mod Pending
mod Batches
mod Remote
mod Uploads
mod Publishing
mod Rejections
