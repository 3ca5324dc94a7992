-- ===== src/Http.antt =====
-- The HTTP side of the program: internal/api/handlers.go over the store interface, and the mux and the
-- middlewares of cmd/api/main.go.
pub mod Backend
pub mod Act
pub mod Publish
pub mod Handlers
pub mod InMemory
pub mod Mux
pub mod Middleware
pub mod Session
pub mod Live
pub mod Access
pub mod Pipeline
pub mod Streams
pub mod Paths
pub mod Reading
pub mod Once
mod Tests
