-- ===== src/Server.antt =====
-- src/server: what the handlers and the guards decide.
pub mod Owner
pub mod ApiToken
pub mod TokenGuard
pub mod Secret
pub mod ListFilter
pub mod UserControl
pub mod Guards
pub mod Hooks
pub mod SignIn
pub mod OAuth
pub mod PublicRead
pub mod Itm
pub mod Login
pub mod AuthConfig
