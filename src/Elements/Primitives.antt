-- ===== src/Elements/Primitives.antt =====
-- src/elements/primitives.rs: the encodings of numbers, strings and counted lists.
pub mod Groups
pub mod Unsigned
pub mod VarUint32
pub mod VarUint64
pub mod Signed
pub mod VarInt32
pub mod VarInt64
pub mod VarUint7
pub mod Uint8
pub mod VarUint1
pub mod VarInt7
pub mod ByteOrder
pub mod Uint32
pub mod Uint64
pub mod CountedList
pub mod CountedWriter
pub mod Text
pub mod Total
