-- ===== src/Cache.antt =====
-- cache/signature.go: the signatures by their session, which the API's status handler streams.
pub mod Defs
pub mod Spec
pub mod Invariants
pub mod Refinement
