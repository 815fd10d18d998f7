-- ===== src/Contracts.antt =====
-- The typed contracts that components, actors and transports share.
-- src/ganker/contracts.py
--
-- `R` is the type of Python's `float`. A field of type `int` is a ℤ, so that the guards on negative
-- values have something to reject.
mod Values
mod Runs
mod Messages
unfoldable pub use Values.*
unfoldable pub use Runs.*
unfoldable pub use Messages.*
