-- ===== src/Store/Tests.antt =====
-- A store that never fails, as an instance of the interface, and the theorem on the keys applied.
