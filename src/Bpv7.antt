-- ===== src/Bpv7.antt =====
-- pkg/bpv7: bundles of the Bundle Protocol Version 7, their blocks, and fragmentation.
pub mod Errors
pub mod Flags
pub mod Endpoint
pub mod Uri
pub mod Time
pub mod Block
pub mod Primary
pub mod Bundle
pub mod Reassembly
pub mod Codec
pub mod Fragmentation
pub mod AdministrativeRecord
pub mod Builder
mod Tests
