-- ===== src/Messages/Tests.antt =====
-- Texts and page sizes at concrete values.
