-- ===== src/Fastser.antt =====
-- internal/fastser: the compressed payloads of fast serialization.
pub mod Lz4
