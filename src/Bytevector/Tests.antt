-- ===== src/Bytevector/Tests.antt =====
-- The theorems on bytevectors at concrete bytes.
