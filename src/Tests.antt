-- ===== src/Tests.antt =====
-- Concrete runs of the theorems, on a small store of two accounts and a store of two secrets.
mod Fixtures
mod Records
mod Accounts
mod Sessions
mod Secrecy
mod Tokens
mod Filters
mod Items
mod SignIn
mod Vault
mod Storage
mod Bearers
