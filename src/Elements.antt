-- ===== src/Elements.antt =====
-- src/elements: the binary format.
pub mod Error
pub mod Codec
pub mod Total
pub mod Primitives
pub mod Buffered
pub mod Types
pub mod IndexMap
pub mod ImportEntry
pub mod ExportEntry
pub mod Ops
pub mod Segment
pub mod Buffer
pub mod Section
pub mod Func
pub mod RelocSection
pub mod NameSection
pub mod Module
