-- ===== src/Api.antt =====
-- The HTTP layer: config/api.py, apps/common/api and apps/authz/api/routers. Ninja calls a view with the
-- principal that the bearer authentication left in `request.auth`; routing and the parsing of bodies
-- and queries are Ninja's.
pub mod Envelope
pub mod Schemas
pub mod AuthRouter
pub mod AdminUsers
pub mod AdminRbac
pub mod Guards
pub mod Pages
pub mod Failures
pub mod LogoutEffect
