-- ===== src/Examples.antt =====
-- Concrete runs: the theorems applied to small databases.
mod Data
mod Pipeline
mod Parts
mod Ingest
mod Endpoints
mod Attempt
mod Destinations
mod Accounts
mod Tokens
mod Keys
mod Retention
mod Pages
