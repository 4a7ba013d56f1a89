-- ===== src/Routing.antt =====
-- pkg/routing: what a node keeps of the bundles that it sends.
pub mod IdKeeper
pub mod Descriptor
pub mod Core
pub mod Processing
pub mod Epidemic
pub mod Dtlsr
pub mod Mule
pub mod Spray
mod Tests
