-- ===== src/Types/Wire.antt =====
-- The encodings of the consensus objects: what is encoded decodes to itself, and what decodes is
-- the one encoding of its value.
pub mod Simple
pub mod Nested
pub mod Whole
