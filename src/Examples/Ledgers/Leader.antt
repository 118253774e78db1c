-- ===== src/Examples/Ledgers/Leader.antt =====
-- A block that the leader of the small chain makes.
