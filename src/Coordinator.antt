-- ===== src/Coordinator.antt =====
-- The coordinator: internal/coordinator/coordinator.go and internal/coordinator/chat.go.
pub mod Job
pub mod Attempt
pub mod Forward
pub mod Select
pub mod Chat
pub mod Access
pub mod Delivery
mod Tests
