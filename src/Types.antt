-- ===== src/Types.antt =====
-- The types of src/types: names, descriptors, integral candidates and the inferred types.
pub mod ClassName
pub mod Utf8
pub mod Primitive
pub mod Integral
pub mod Inferred
pub mod Descriptor
