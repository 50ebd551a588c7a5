-- ===== src/Rpc.antt =====
-- sonnet-rpc-v2: the circuit breaker, the limiter, the load balancers and the transport.
pub mod Breaker
pub mod Limiter
pub mod Packets
pub mod Protocol
pub mod Balance
pub mod Pool
