-- ===== src/Rpc.antt =====
-- The gRPC service in front of a mesh, and its client.
-- src/ganker/rpc/conversion.py, src/ganker/rpc/server.py and src/ganker/rpc/client.py
pub mod Wire
pub mod Protobuf
pub mod Values
pub mod Tensors
pub mod Requests
pub mod Responses
pub mod RoundTrip
pub mod Errors
pub mod Prefixes
pub mod Pattern
pub mod Wrapped
pub mod Server
pub mod Client
pub mod Auth
pub mod Relay
pub mod Refinement
pub mod Refusal
pub mod Downloads
