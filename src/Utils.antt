-- ===== src/Utils.antt =====
-- The helpers of utils/: byte encodings, protocol numbers and maps (tool.go), the CRC (crc.go) and the
-- snowflake identifiers (snowflake.go).
pub mod Bytes
pub mod Tool
pub mod Gid
pub mod Proto
pub mod Crc
pub mod Snowflake
pub mod Files
