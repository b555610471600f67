-- ===== src/Http.antt =====
-- internal/httpapi: requests to use cases and their results to responses.
pub mod Dto
pub mod Auth
pub mod Errors
pub mod Handlers
pub mod Safety
pub mod Router
