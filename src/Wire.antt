-- ===== src/Wire.antt =====
-- The event queue's items and their wire format (common/TracyQueue.hpp).
pub mod Layout
pub mod Kind
pub mod Size
pub mod Bounds
