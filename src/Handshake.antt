-- ===== src/Handshake.antt =====
-- handshake and hmac: the secrets of chained and of OATH handshakes.
pub mod Chained
pub mod Oath
pub mod Protocol
pub mod Key
pub mod Noise
pub mod NoiseTrace
pub mod CardKey
pub mod Texts
mod Runs
mod TextRuns
mod CardRuns
