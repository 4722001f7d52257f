-- ===== src/Util/Moments/Tests.antt =====
-- The last second of 9999.
