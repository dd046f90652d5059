-- ===== src/Types/Marshal.antt =====
-- types/encoding.go: the binary form of the structs (`MarshalSia`), its size (`MarshalSiaSize`), the
-- way back (`UnmarshalSia`), and the places of the fields that other code reads without decoding.
pub mod Currency
pub mod Encode
pub mod Size
pub mod Decode
pub mod RoundTrip
pub mod Layout
