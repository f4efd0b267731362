-- ===== src/Publisher.antt =====
-- packages/publisher/src/publisher
pub mod Processing
pub mod Consumer
