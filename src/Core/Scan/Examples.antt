-- ===== src/Core/Scan/Examples.antt =====
-- DBSIZE and KEYS at a data plane with one key.
use aura_redis.Core.Examples.{one_key, one_key-IsValid}
use aura_redis.Core.Scan.{ar_dbsize}
use aura_redis.Core.Scan.Counts.{Counted, dbsize-Counted}

dbsize-Counted_example : Counted 1000 one_key (ar_dbsize 1000 one_key)
dbsize-Counted_example = dbsize-Counted 1000 one_key one_key-IsValid
