-- ===== src/Openpgp.antt =====
-- The package internal/openpgp: a driver for OpenPGP smart cards.
pub mod Constants
pub mod Tables
pub mod Errors
pub mod StatusTexts
pub mod Apdu
pub mod Framing
pub mod Reader
pub mod Chaining
pub mod Card
pub mod Objects
pub mod Templates
pub mod Application
pub mod Loops
pub mod Codec
pub mod Totality
pub mod Historical
pub mod Keys
pub mod Containers
pub mod Commands
pub mod SharedSecret
pub mod Listing
pub mod Queries
mod Runs
mod ObjectRuns
