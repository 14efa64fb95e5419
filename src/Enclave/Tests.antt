-- ===== src/Enclave/Tests.antt =====
-- The enclave on concrete states, with a concrete curve.
mod Samples
mod Signatures
mod Payments
mod Traces
mod Batches
mod Rounds
mod Overdue
