-- ===== src/Examples.antt =====
-- Concrete runs of the definitions, and the theorems at concrete inputs.
mod Text
mod Names
mod Digits
mod Chunks
mod Manifests
mod Frames
mod Streams
mod Payloads
mod Memory
mod Transfers
mod Preparations
mod Scans
mod Retries
mod Inventories
