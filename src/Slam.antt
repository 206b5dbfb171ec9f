-- ===== src/Slam.antt =====
-- src/slam: one SLAM worker per car (`Worker`), and the rendering of its map (`MapPng`).
pub mod MapPng
pub mod Worker
pub mod Toy
mod Tests
