-- ===== src/Tests.antt =====
-- Concrete inputs of the programs under internal/ and driver/, and runs of the theorems on them.
mod Samples
mod Texts
mod Policies
mod Sandboxes
mod Networks
mod Backends
mod Copies
mod Secrets
