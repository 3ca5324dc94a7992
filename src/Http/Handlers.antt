-- ===== src/Http/Handlers.antt =====
-- The handlers of internal/api/handlers.go.
pub mod Orders
pub mod Plans
pub mod Routes
pub mod Events
pub mod Subscriptions
pub mod Geofences
pub mod Admin
pub mod Dlq
pub mod Misc
