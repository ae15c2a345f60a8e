-- ===== src/IntSets.antt =====
-- _set/int64_set.go and _set/int32_set.go: the methods of _set/string_set.go but `Equal`, `Pop` and
-- `NewDiff`, written out for int64 and int32. Both key types are integers, compared by `==`.
pub mod Int64Set
pub mod Int32Set
