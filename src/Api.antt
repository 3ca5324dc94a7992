-- ===== src/Api.antt =====
-- internal/api: the broker of server-sent events, the caller's identity and the validation of requests.
pub mod Broker
pub mod Principal
pub mod Validate
mod Tests
