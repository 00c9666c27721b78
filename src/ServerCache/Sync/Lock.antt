-- ===== src/ServerCache/Sync/Lock.antt =====
-- When the lock of the cache is released.
