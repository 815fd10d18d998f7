-- ===== src/Backends/Fake.antt =====
-- Local deterministic backends.
-- src/ganker/backends/fake.py
pub mod Training
pub mod Inference
