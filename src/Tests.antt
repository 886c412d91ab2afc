-- ===== src/Tests.antt =====
-- A concrete installation, and the theorems of the development applied to it.
pub mod Redis
pub mod Jwt
pub mod Installation
pub mod Tokens
pub mod Requests
pub mod Laws
pub mod Proxies
pub mod Views
pub mod Boot
pub mod Families
pub mod Commands
pub mod Schema
pub mod Enrolment
