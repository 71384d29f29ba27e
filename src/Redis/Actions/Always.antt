-- ===== src/Redis/Actions/Always.antt =====
-- Invariants of actions that hold whatever exchanges fail, one rule for each way to build an action.
use relayra.Prelude.{
  ◌≡◌, refl, Bool, true, false, List, [], ◌∷◌, take, zero, suc, ℕ, if◌then◌else◌, All,
}
use relayra.Errors.{Error, Result, ok, err}
use relayra.Redis.Objects.{Command}
use relayra.Redis.Actions.{
  Outcome, answered, cut, State, Exec, next_outcome, later, answer, run_all, written, pure, raise,
  lift, read, read_or, batch, attempt, try, under, continue, ◌>>=◌,
}

-- `m` keeps `P` of the database, whether it returns or raises and whatever exchanges fail
pub record Always {ℓ} {D : Type 0} {A : Type ℓ} (P : D → Type 0) (m : Exec D A) : Type ℓ where
  pub at : (s : State D) → P s.db → P (m s).1.db

-- `P` holds after each prefix of the commands
abbrev pub Through : {D : Type 0} → (D → Type 0) → (D → Command → D) → List Command → D → Type 0
Through P write [] d = P d
Through P write (c ∷ cs) d = P d × Through P write cs (write d c)

module _ {D : Type 0} (P : D → Type 0) (write : D → Command → D) where
  pub Through-take :
      (n : ℕ) (cs : List Command) (d : D) → Through P write cs d → P (run_all write (take n cs) d)
  Through-take zero [] d h = h
  Through-take zero (c ∷ cs) d h = h.0
  Through-take (suc n) [] d h = h
  Through-take (suc n) (c ∷ cs) d h = Through-take n cs (write d c) h.1

  pub Through-all : (cs : List Command) (d : D) → Through P write cs d → P (run_all write cs d)
  Through-all [] d h = h
  Through-all (c ∷ cs) d h = Through-all cs (write d c) h.1

  -- each command keeps `P` by itself
  pub Through-each :
      (cs : List Command) (d : D)
      → All (λ c. (d : D) → P d → P (write d c)) cs
      → P d
      → Through P write cs d
  Through-each [] d safe h = h
  Through-each (c ∷ cs) d safe h = (h, Through-each cs (write d c) safe.1 (safe.0 d h))

pub Through-mono :
    {D : Type 0} (P Q : D → Type 0) (write : D → Command → D)
    → ((d : D) → Q d → P d)
    → (cs : List Command) (d : D) → Through Q write cs d
    → Through P write cs d
Through-mono P Q write weaken [] d h = weaken d h
Through-mono P Q write weaken (c ∷ cs) d h =
    (weaken d h.0, Through-mono P Q write weaken cs (write d c) h.1)

pub Always-true {ℓ} : {D : Type 0} {A : Type ℓ} (m : Exec D A) → Always (λ _. Unit) m
Always-true m = record { at = λ s h. tt }

module _ {ℓ} {D : Type 0} {A : Type ℓ} {P : D → Type 0} where
  pub Always-pure : (a : A) → Always P (pure a)
  unfolding pure
  Always-pure a = record { at = λ s h. h }

  pub Always-read : (f : D → A) → Always P (read f)
  unfolding read
  Always-read f = record { at = λ s h. h }

  pub Always-read_or : (a : A) (f : D → A) → Always P (read_or a f)
  unfolding read_or
  Always-read_or a f = record { at = λ s h. h }

  pub Always-batch :
      (write : D → Command → D) (f : D → List Command × A)
      → ((d : D) → P d → Through P write (f d).0 d)
      → Always P (batch write f)
  unfolding batch
  Always-batch write f through = record { at = λ s h. kept s (next_outcome s.net) h }
    where
      kept : (s : State D) (o : Outcome) → P s.db → P (run_all write (written o (f s.db).0) s.db)
      kept s answered h = Through-all P write (f s.db).0 s.db (through s.db h)
      kept s (cut n) h = Through-take P write n (f s.db).0 s.db (through s.db h)

  pub Always-under : (net : List Outcome) (m : Exec D A) → Always P m → Always P (under net m)
  Always-under net m k = record { at = λ s h. k.at (record s { net = net }) h }

  pub Always-attempt : (m : Exec D A) → Always P m → Always P (attempt m)
  unfolding attempt
  Always-attempt m k = record { at = λ s h. k.at s h }

  pub Always-try : (m : Exec D A) → Always P m → Always P (try m)
  unfolding try
  Always-try m k = record { at = λ s h. k.at s h }

  pub Always-raise : (error : Error) → Always P (raise {A = A} error)
  unfolding raise
  Always-raise error = record { at = λ s kept. kept }

  pub Always-lift : (result : Result A) → Always P (lift result)
  unfolding lift
  Always-lift result = record { at = λ s h. h }

  pub Always-if :
      (b : Bool) (m n : Exec D A)
      → (b ≡ true → Always P m)
      → (b ≡ false → Always P n)
      → Always P (if b then m else n)
  Always-if true m n km kn = km refl
  Always-if false m n km kn = kn refl

  pub Always-either :
      (b : Bool) {m n : Exec D A} → Always P m → Always P n → Always P (if b then m else n)
  Always-either true km kn = km
  Always-either false km kn = kn

module _ {ℓ κ} {D : Type 0} {A : Type ℓ} {B : Type κ} {P : D → Type 0} where
  Always-continue :
      (r : Result A) (f : A → Exec D B)
      → ((a : A) → Always P (f a))
      → (s : State D) → P s.db
      → P (continue r f s).1.db
  Always-continue (ok a) f kf s h = (kf a).at s h
  Always-continue (err e) f kf s h = h

  pub Always-bind :
      (first : Exec D A) (rest : A → Exec D B)
      → Always P first
      → ((a : A) → Always P (rest a))
      → Always P (first >>= rest)
  unfolding ◌>>=◌
  Always-bind first rest kept then_kept = record {
    at =
        λ s h. let (answer, s') = first s in Always-continue answer rest then_kept s' (kept.at s h);
  }

  -- from a state in which the first action keeps `P`
  pub Always-after :
      (first : Exec D A) (rest : A → Exec D B) (s : State D)
      → P (first s).1.db
      → ((a : A) → Always P (rest a))
      → P ((first >>= rest) s).1.db
  unfolding ◌>>=◌
  Always-after first rest s kept then_kept =
      let (answer, s') = first s in Always-continue answer rest then_kept s' kept

-- what follows a read may use what was read
module _ {ℓ κ} {D : Type 0} {A : Type ℓ} {B : Type κ} {P : D → Type 0} where
  pub Always-read-bind :
      (f : D → A) (g : A → Exec D B)
      → ((s : State D) → P s.db → P (g (f s.db) s).1.db)
      → Always P (read f >>= g)
  unfolding ◌>>=◌
  Always-read-bind f g h = record { at = λ s p. go s (next_outcome s.net) p }
    where
      go :
          (s : State D) (o : Outcome)
          → P s.db
          → P (continue (answer o (f s.db)) g (record s { net = later s.net })).1.db
      go s answered p = h (record s { net = later s.net }) p
      go s (cut n) p = p
