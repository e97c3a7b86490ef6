-- ===== src/Builder.antt =====
-- src/builder: modules that are put together.
pub mod Module
pub mod Regions
pub mod Code
