-- ===== src/HashTable/Access/Total.antt =====
-- `set` succeeds for every key: when there is no room, the table is rehashed first.
