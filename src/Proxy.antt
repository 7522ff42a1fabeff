-- ===== src/Proxy.antt =====
-- cli/internal/proxy: the runtime proxy.
pub mod Scanner
pub mod DecisionLog
pub mod TrustVerifier
pub mod PolicyConfig
pub mod Capability
pub mod Handler
pub mod Pinning
pub mod Network
pub mod JsonRpc
pub mod TwoPass
pub mod Mcp
pub mod Streamable
pub mod Entropy
pub mod Profiler
