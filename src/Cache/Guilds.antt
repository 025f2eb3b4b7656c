-- ===== src/Cache/Guilds.antt =====
-- `Guilds` of src/cache.rs around Twilight's cache: what it hands on to the library, whose operations
-- are the first arguments.
module _ {Cache : Type 0} where
  abbrev pub new : Cache → Cache
  new cache = cache

  abbrev pub update : {Event : Type 0} → (Cache → Event → Cache) → Cache → Event → Cache
  update library cache value = library cache value

  abbrev pub stats : {Stats : Type 0} → (Cache → Stats) → Cache → Stats
  stats library cache = library cache
