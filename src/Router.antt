-- ===== src/Router.antt =====
-- src/domain/router.rs: which provider and which upstream model serve a requested model.
pub mod Build
pub mod Resolve
pub mod Spec
pub mod Tables
pub mod Auto
pub mod Refine
pub mod Laws
pub mod Prefix
pub mod Named
