-- ===== src/RoundTrip.antt =====
-- src/decode.rs against src/encode.rs: the value text that the decoder prints for a setting is
-- encoded to the same bytes. Each statement has the decoder's line and the encoder's result.
pub mod Numbers
pub mod Addresses
pub mod Strings
pub mod Rows
