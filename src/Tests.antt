-- ===== src/Tests.antt =====
-- Runs of the theorems at concrete inputs, and tests.
mod Documents
mod Sample
mod Crypto
mod Models
mod Settlement
mod Mesh
mod Ledger
mod Requests
mod Env
mod Pem
mod Keys
mod Race
