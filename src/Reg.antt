-- ===== src/Reg.antt =====
-- Service registries: discovery, the gRPC resolver and registration, of reg/.
pub mod Consul
pub mod Instance
pub mod Resolver
pub mod Discovery
pub mod Build
pub mod Registry
