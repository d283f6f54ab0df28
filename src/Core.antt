-- ===== src/Core.antt =====
-- Statuses, results and shapes.
pub mod Status
pub mod Expected
pub mod Types
pub mod Shape
