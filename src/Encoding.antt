-- ===== src/Encoding.antt =====
-- The binary encoding: integers (encoding/integers.go) and the helpers with which the unmarshallers
-- of types/encoding.go read a byte stream (`decHelper`).
pub mod Integers
pub mod Decoder
