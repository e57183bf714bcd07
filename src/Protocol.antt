-- ===== src/Protocol.antt =====
-- The CMOD wire protocol: shared/include/custommodel/protocol.hpp and shared/src/protocol.cpp.
pub mod Types
pub mod Checks
pub mod Writer
pub mod Reader
pub mod Encode
pub mod Decode
pub mod Layout
pub mod Stream
