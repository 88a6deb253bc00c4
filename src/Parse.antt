-- ===== src/Parse.antt =====
-- The decoder of messages, WaterMyPlants/Pods/nanopb/pb_decode.c from `decode_static_field` on. It reads a
-- stream and writes the structure, which lies in `Memory`; a pointer to descriptors is a number that
-- `tables` turns into them.
pub mod Machine
pub mod Values
pub mod Default
pub mod Release
pub mod Static
pub mod Pointer
pub mod Callback
pub mod Fields
pub mod Required
pub mod Messages
pub mod Steps
pub mod Allocate
pub mod Confined
pub mod Marks
pub mod NoExtensions
pub mod RoundTrip
