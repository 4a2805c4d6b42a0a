-- ===== src/Oracle/Accepts.antt =====
-- What the text oracles accept, described without their code.
pub mod Json
pub mod Known
pub mod Utf8
