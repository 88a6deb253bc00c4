-- ===== src/Message.antt =====
-- The encoder of messages, WaterMyPlants/Pods/nanopb/pb_encode.c from `encode_array` on. The structure
-- lies in `Memory`; a pointer to descriptors is a number that `tables` turns into them.
pub mod Submessage
pub mod Twice
pub mod Values
pub mod Arrays
pub mod Tagged
pub mod Writes
pub mod Whole
pub mod Default
pub mod Fields
