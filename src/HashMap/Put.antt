-- ===== src/HashMap/Put.antt =====
-- `hashmap_insert_any`, where the map need not grow, on the finite map.
