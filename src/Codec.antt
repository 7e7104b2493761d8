-- ===== src/Codec.antt =====
-- src/index/BlockCodec.h and src/index/BlockCodec.cpp.
pub mod VByte
pub mod Delta
pub mod Serialize
pub mod Block
