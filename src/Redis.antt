-- ===== src/Redis.antt =====
-- The Redis server, which the store package talks to: its keys, the objects behind them, its
-- commands, and the interface through which the store sees it. The server is not part of the
-- repository, so it is a parameter with one law, the documented effect of each command.
pub mod Keys
pub mod Objects
pub mod Actions
pub mod Frame
use relayra.Prelude.{◌≡◌, refl, List, [], ◌∷◌, if◌then◌else◌}
use relayra.Errors.{ok}
use relayra.Redis.Keys.{Key, key_eq}
use relayra.Redis.Objects.{Object, Command, target, effect}
use relayra.Redis.Actions.{Exec, batch, pure, calm, run_all, ◌>>=◌}

pub record Redis : Type 1 where
  pub Db : Type 0
  -- the object behind a key
  pub look : Db → Key → Object
  pub write : Db → Command → Db
  -- a command changes its own key, and no other
  pub look-write :
      (d : Db) (c : Command) (k : Key)
      → look (write d c) k ≡ (if key_eq (target c) k then effect c (look d k) else look d k)

module _ ⦃R : Redis⦄ where
  open R use {Db, look, write}

  -- a pipeline whose answers are not used
  abbrev pub pipeline : List Command → Exec Db (Unit {0})
  pipeline cs = batch write (λ _. (cs, tt))

  -- what a key holds after some commands
  abbrev pub look_after : Db → List Command → Key → Object
  look_after d cs k = look (run_all write cs d) k

  -- a pipeline that may be empty, for which the client talks to no server
  abbrev pub pipeline_if_any : List Command → Exec Db (Unit {0})
  pipeline_if_any [] = pure tt
  pipeline_if_any (c ∷ cs) = pipeline (c ∷ cs)

  pub pipeline_if_any-calm :
      (cs : List Command) (d : Db)
      → pipeline_if_any cs (calm d) ≡ (ok tt, calm (run_all write cs d))
  unfolding ◌>>=◌
  pipeline_if_any-calm [] d = refl
  pipeline_if_any-calm (c ∷ cs) d = refl
