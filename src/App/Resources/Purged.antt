-- ===== src/App/Resources/Purged.antt =====
-- purgeAllCachedResources: what is left of the cache and of the resource directory.
