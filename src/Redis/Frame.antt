-- ===== src/Redis/Frame.antt =====
-- A command leaves alone what stands behind keys of other kinds than its own.
use relayra.Prelude.{◌≡◌, Bool, true, false, List, [], ◌∷◌, All}
use relayra.Redis.{Redis, pipeline}
use relayra.Redis.Keys.{Space, Key, key_eq-apart}
use relayra.Redis.Objects.{Command, target}
use relayra.Redis.Actions.{batch}
use relayra.Redis.Actions.Always.{Always, Through, Always-batch}

module _ ⦃R : Redis⦄ where
  open R use {Db, look, write, look-write}

  -- whether a command's key is of a kind
  abbrev pub Of : (Space → Bool) → Command → Type 0
  Of kind c = kind (target c).space ≡ true

  -- commands on keys of a kind keep `P`
  abbrev pub Spares : (Space → Bool) → (Db → Type 0) → Type 0
  Spares kind P = (c : Command) → Of kind c → (d : Db) → P d → P (write d c)

  pub look-elsewhere :
      (kind : Space → Bool) (c : Command) (k : Key)
      → Of kind c
      → kind k.space ≡ false
      → (d : Db) → look (write d c) k ≡ look d k
  look-elsewhere kind c k of outside d =
      simp (look-write, key_eq-apart kind (target c) k of outside)

  module _ {P : Db → Type 0} (kind : Space → Bool) (spares : Spares kind P) where
    pub Spares-Through :
        (cs : List Command) → All (Of kind) cs → (d : Db) → P d → Through P write cs d
    Spares-Through [] of d h = h
    Spares-Through (c ∷ cs) of d h = (h, Spares-Through cs of.1 (write d c) (spares c of.0 d h))

    pub Always-spared : (cs : List Command) → All (Of kind) cs → Always P (pipeline cs)
    Always-spared cs of = Always-batch write _ (Spares-Through cs of)

    -- a script, whose commands depend on the database
    pub Always-script {ℓ} :
        {A : Type ℓ} (f : Db → List Command × A)
        → ((d : Db) → All (Of kind) (f d).0)
        → Always P (batch write f)
    Always-script f of = Always-batch write f (λ d h. Spares-Through (f d).0 (of d) d h)
