-- ===== src/Rpc/RoundTrip.antt =====
-- What arrives of a message that is converted, sent and converted back.
mod Lists
pub mod Values
pub mod Tensors
pub use Lists.*
pub mod Requests
pub mod Responses
