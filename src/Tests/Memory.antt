-- ===== src/Tests/Memory.antt =====
-- A Redis server in memory: its keys are a function.
use relayra.Prelude.{refl, if◌then◌else◌}
use relayra.Redis.{Redis}
use relayra.Redis.Keys.{Key, key_eq}
use relayra.Redis.Objects.{Object, absent, target, effect}

abbrev pub Memory : Type 0
Memory = Key → Object

abbrev pub empty : Memory
empty _ = absent

instance abbrev pub memory : Redis
memory = record {
  Db = Memory;
  look = λ d k. d k;
  write = λ d c k. if key_eq (target c) k then effect c (d k) else d k;
  look-write = λ d c k. refl;
}
