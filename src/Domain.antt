-- ===== src/Domain.antt =====
-- domain/: identifiers, path-safe stems and the links between polygons and documents.
pub mod Chars
pub mod Stems
pub mod Qids
pub mod Values
pub mod Links
