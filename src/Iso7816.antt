-- ===== src/Iso7816.antt =====
-- The package internal/iso7816: BER-TLV tags, lengths and data objects, status codes.
pub mod Tag
pub mod Tlv
pub mod Instructions
pub mod Status
pub mod Header
pub mod RoundTrip
pub mod Truncation
pub mod Length
pub mod Ends
mod Runs
