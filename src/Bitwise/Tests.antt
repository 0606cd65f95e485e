-- ===== src/Bitwise/Tests.antt =====
-- The theorems on bitwise operations at concrete fixnums.
