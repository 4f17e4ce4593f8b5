-- ===== src/Provider.antt =====
-- provider: the sources of keys, of which the keys in files are modelled.
pub mod File
pub mod Store
pub mod Lookup
pub mod Listing
pub mod Creation
pub mod Lifecycle
pub mod FileKey
pub mod Order
pub mod Session
pub mod Ykoath
pub mod Multi
pub mod Slots
pub mod Applese
pub mod Sample
mod Runs
