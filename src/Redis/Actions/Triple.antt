-- ===== src/Redis/Actions/Triple.antt =====
-- What holds after an action that returns a value, where something held before it, whatever
-- exchanges fail; one rule for each way to build an action.
use relayra.Prelude.{◌≡◌, refl, subst, Bool, true, false, Option, none, some, List, if◌then◌else◌}
use relayra.Errors.{Error, Result, ok, err}
use relayra.Redis.Objects.{Command}
use relayra.Redis.Actions.{
  Outcome, answered, cut, next_outcome, answer, written, State, Exec, pure, raise, read, try, batch,
  run_all, continue, result_option, ◌>>=◌,
}
use relayra.Redis.Actions.Always.{Always}

abbrev pub Post {ℓ} : {D : Type 0} {A : Type ℓ} → (A → D → Type 0) → Result A → D → Type 0
Post Q (ok a) d = Q a d
Post Q (err e) d = Unit

pub record Triple {ℓ} {D : Type 0} {A : Type ℓ} (P : D → Type 0) (m : Exec D A) (Q : A → D → Type 0)
    : Type ℓ where
  pub at : (s : State D) → P s.db → Post Q (m s).0 (m s).1.db

-- what is known of a value that `try` gives
abbrev pub Tried {ℓ} :
    {D : Type 0} {A : Type ℓ} → (D → Type 0) → (A → D → Type 0) → Option A → D → Type 0
Tried P Q none d = P d
Tried P Q (some a) d = Q a d

module _ {D : Type 0} {A : Type 0} {P : D → Type 0} where
  -- what a read answers is what stands in the database
  pub Triple-read : (f : D → A) → Triple P (read f) (λ a d. P d × (a ≡ f d))
  unfolding read
  Triple-read f = record { at = λ s p. answered_with s (next_outcome s.net) p }
    where
      answered_with :
          (s : State D) (o : Outcome)
          → P s.db
          → Post (λ a d. P d × (a ≡ f d)) (answer o (f s.db)) s.db
      answered_with s answered p = (p, refl)
      answered_with s (cut n) p = tt

module _ {ℓ} {D : Type 0} {A : Type ℓ} {P : D → Type 0} where
  pub Triple-pure : {Q : A → D → Type 0} (a : A) → ((d : D) → P d → Q a d) → Triple P (pure a) Q
  unfolding pure
  Triple-pure a h = record { at = λ s p. h s.db p }

  pub Triple-raise : {Q : A → D → Type 0} (e : Error) → Triple P (raise {A = A} e) Q
  unfolding raise
  Triple-raise e = record { at = λ s p. tt }

  pub Triple-always : {m : Exec D A} → Always P m → Triple P m (λ _. P)
  Triple-always {m} k = record { at = λ s p. after (m s).0 (m s).1.db (k.at s p) }
    where
      after : (r : Result A) (d : D) → P d → Post (λ _. P) r d
      after (ok a) d h = h
      after (err e) d h = tt

  -- what the action keeps holds besides
  pub Triple-and :
      {Q : A → D → Type 0} {R : D → Type 0} {m : Exec D A}
      → Triple P m Q
      → Always R m
      → Triple (λ d. P d × R d) m (λ a d. Q a d × R d)
  Triple-and {Q} {R} {m} t k = record {
    at = λ s p. both (m s).0 (m s).1.db (t.at s p.0) (k.at s p.1);
  }
    where
      both : (r : Result A) (d : D) → Post Q r d → R d → Post (λ a d'. Q a d' × R d') r d
      both (ok a) d q h = (q, h)
      both (err e) d q h = tt

  pub Triple-try :
      {Q : A → D → Type 0} {m : Exec D A} → Triple P m Q → Always P m → Triple P (try m) (Tried P Q)
  unfolding try
  Triple-try {Q} {m} t k = record { at = λ s p. tried (m s).0 (m s).1.db (t.at s p) (k.at s p) }
    where
      tried : (r : Result A) (d : D) → Post Q r d → P d → Tried P Q (result_option r) d
      tried (ok a) d q h = q
      tried (err e) d q h = h

  pub Triple-ok :
      {Q : A → D → Type 0} {m : Exec D A} (a : A)
      → Triple P m Q
      → (s : State D) → P s.db
      → (m s).0 ≡ ok a
      → Q a (m s).1.db
  Triple-ok {Q} {m} a t s p e = subst (λ r. Post Q r (m s).1.db) e (t.at s p)

  pub Triple-if :
      {Q : A → D → Type 0} (b : Bool) (m n : Exec D A)
      → Triple P m Q
      → Triple P n Q
      → Triple P (if b then m else n) Q
  Triple-if true m n tm tn = tm
  Triple-if false m n tm tn = tn

  pub Triple-mono :
      {P' : D → Type 0} {Q Q' : A → D → Type 0} {m : Exec D A}
      → ((d : D) → P' d → P d)
      → ((a : A) (d : D) → Q a d → Q' a d)
      → Triple P m Q
      → Triple P' m Q'
  Triple-mono {Q} {Q'} {m} before after t = record {
    at = λ s p. weaker (m s).0 (m s).1.db (t.at s (before s.db p));
  }
    where
      weaker : (r : Result A) (d : D) → Post Q r d → Post Q' r d
      weaker (ok a) d q = after a d q
      weaker (err e) d q = tt

  -- a batch that returns has run all of its commands
  pub Triple-batch :
      {Q : A → D → Type 0} (write : D → Command → D) (f : D → List Command × A)
      → ((d : D) → P d → Q (f d).1 (run_all write (f d).0 d))
      → Triple P (batch write f) Q
  unfolding batch
  Triple-batch {Q} write f h = record { at = λ s p. ran s (next_outcome s.net) p }
    where
      ran :
          (s : State D) (o : Outcome)
          → P s.db
          → Post Q (answer o (f s.db).1) (run_all write (written o (f s.db).0) s.db)
      ran s answered p = h s.db p
      ran s (cut n) p = tt

module _ {ℓ κ} {D : Type 0} {A : Type ℓ} {B : Type κ} {P : D → Type 0} {T : B → D → Type 0} where
  pub Triple-bind :
      {Q : A → D → Type 0} {m : Exec D A} {f : A → Exec D B}
      → Triple P m Q
      → ((a : A) → Triple (Q a) (f a) T)
      → Triple P (m >>= f) T
  unfolding ◌>>=◌
  Triple-bind {Q} {m} {f} tm tf = record { at = λ s p. go (m s).0 (m s).1 (tm.at s p) }
    where
      go :
          (r : Result A) (s : State D)
          → Post Q r s.db
          → Post T (continue r f s).0 (continue r f s).1.db
      go (ok a) s q = (tf a).at s q
      go (err e) s q = tt

-- what follows keeps `P` where something is known of the first value
module _ {ℓ κ} {D : Type 0} {A : Type ℓ} {B : Type κ} {P : D → Type 0} {Q : A → Type 0} where
  pub Always-known :
      {m : Exec D A} {f : A → Exec D B}
      → Always P m
      → Triple P m (λ a d. P d × Q a)
      → ((a : A) → Q a → Always P (f a))
      → Always P (m >>= f)
  unfolding ◌>>=◌
  Always-known {m} {f} km tm kf = record { at = λ s p. go (m s).0 (m s).1 (km.at s p) (tm.at s p) }
    where
      go :
          (r : Result A) (s : State D)
          → P s.db
          → Post (λ a d. P d × Q a) r s.db
          → P (continue r f s).1.db
      go (ok a) s p q = (kf a q.1).at s p
      go (err e) s p q = p

-- what is known of the first value does not depend on the database
module _ {ℓ κ} {D : Type 0} {A : Type ℓ} {B : Type κ} {Q : A → Type 0} {T : B → D → Type 0} where
  pub Triple-known :
      {m : Exec D A} {f : A → Exec D B}
      → Triple (λ _. Unit) m (λ a _. Q a)
      → ((a : A) → Q a → Triple (λ _. Unit) (f a) T)
      → Triple (λ _. Unit) (m >>= f) T
  Triple-known tm tf = Triple-bind tm (λ a. record { at = λ s q. (tf a q).at s tt })
