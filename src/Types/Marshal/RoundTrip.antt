-- ===== src/Types/Marshal/RoundTrip.antt =====
-- What fits the binary format, and that the unmarshallers of types/encoding.go read the marshallers'
-- bytes back.
pub mod Parts
pub mod Contracts
pub mod Whole
