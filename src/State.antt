-- ===== src/State.antt =====
-- src/state: the stores and the state that the handlers share.
pub mod Store
pub mod Paging
pub mod StoreMemory
pub mod CoreTask
pub mod Secrets
pub mod RouteCache
pub mod StoreLocal
