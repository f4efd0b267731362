-- ===== src/Api.antt =====
-- packages/api/src/api: the routes as actions on the state, and what surrounds them.
pub mod Errors
pub mod Payload
pub mod Response
pub mod Create
pub mod ReviewRequest
pub mod Review
pub mod Listing
pub mod Middleware
pub mod Metrics
pub mod Migrate
