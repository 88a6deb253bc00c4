-- ===== src/Tests.antt =====
-- Concrete runs of the encoders, the decoders, the iterator and the base-64 functions.
pub mod Streams
pub mod Messages
pub mod Nested
pub mod Parsed
pub mod Confined
pub mod Copied
pub mod Plain
pub mod Tables
pub mod Texts
