-- ===== src/Util.antt =====
-- src/util: small routines that the handlers share.
pub mod Crypto
pub mod Oidc
pub mod Ldap
pub mod Multipart
pub mod Fs
