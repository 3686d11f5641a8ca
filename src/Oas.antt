-- ===== src/Oas.antt =====
-- internal/api/oas: the server, client, JSON codec and validators of the OpenAPI description.
pub mod Schemas
pub mod Jx
pub mod Json
pub mod Validate
pub mod Router
pub mod Http
pub mod Request
pub mod Response
pub mod Server
pub mod Client
pub mod Options
pub mod Labels
