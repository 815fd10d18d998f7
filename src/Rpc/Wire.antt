-- ===== src/Rpc/Wire.antt =====
-- The messages of the gRPC service: proto/ganker/rpc/v1/proxy.proto.
--
-- A message is a record of its fields. A field of an enum holds any int, a submessage that is not set
-- reads as its default, and `optional` keeps whether it is set. `R` is the type of a double, which is
-- Python's `float`. `batch` is the field `data`.
mod Values
mod Messages
unfoldable pub use Values.*
unfoldable pub use Messages.*
