-- ===== src/Redis/Actions.antt =====
-- How the store package runs commands. Each command, pipeline or script is one exchange with the
-- server, and an exchange may fail: the outcomes to come are a part of the state. An exchange that
-- fails may still have run on the server, in whole or in part, before the connection was lost.
pub mod Always
pub mod Calm
pub mod Triple
use relayra.Prelude.{ℕ, Option, none, some, List, [], ◌∷◌, ◌++◌, ◌≡◌, refl, ap, take, arith}
use relayra.Errors.{Error, unavailable, Result, ok, err}
use relayra.Redis.Objects.{Command}

-- `cut n`: the caller sees an error, and the server has run the first `n` commands.
pub data Outcome : Type 0 where
  answered : Outcome
  cut : ℕ → Outcome

-- The database, and the outcomes of the exchanges to come; where the list ends, all succeed.
pub record State (D : Type 0) : Type 0 where
  pub db : D
  pub net : List Outcome

-- every exchange to come succeeds
abbrev pub calm : {D : Type 0} → D → State D
calm d = record { db = d; net = [] }

abbrev pub Exec {ℓ} : Type 0 → Type ℓ → Type ℓ
Exec D A = State D → Result A × State D

abbrev pub next_outcome : List Outcome → Outcome
next_outcome [] = answered
next_outcome (o ∷ _) = o

abbrev pub later : List Outcome → List Outcome
later [] = []
later (_ ∷ net) = net

abbrev pub run_all : {D : Type 0} → (D → Command → D) → List Command → D → D
run_all write [] d = d
run_all write (c ∷ cs) d = run_all write cs (write d c)

pub run_all-append :
    {D : Type 0} (write : D → Command → D) (xs ys : List Command) (d : D)
    → run_all write (xs ++ ys) d ≡ run_all write ys (run_all write xs d)
run_all-append write [] ys d = refl
run_all-append write (x ∷ xs) ys d = run_all-append write xs ys (write d x)

abbrev pub answer {ℓ} : {A : Type ℓ} → Outcome → A → Result A
answer answered a = ok a
answer (cut _) a = err unavailable

abbrev pub answer_or {ℓ} : {A : Type ℓ} → A → Outcome → A → A
answer_or a answered b = b
answer_or a (cut _) b = a

abbrev pub written : Outcome → List Command → List Command
written answered cs = cs
written (cut n) cs = take n cs

abbrev pub ignored {ℓ} : {A : Type ℓ} → Result A → Result (Unit {0})
ignored _ = ok tt

abbrev pub result_option {ℓ} : {A : Type ℓ} → Result A → Option A
result_option (ok a) = some a
result_option (err _) = none

answer-ok {ℓ} :
    {A : Type ℓ} (o : Outcome) (a b : A) (cs : List Command) → answer o a ≡ ok b → written o cs ≡ cs
answer-ok answered a b cs h = refl
answer-ok (cut n) a b cs h = absurd (ground (arith, h))

module _ {ℓ} {D : Type 0} {A : Type ℓ} where
  pub pure : A → Exec D A
  pure a s = (ok a, s)

  pub raise : Error → Exec D A
  raise e s = (err e, s)

  pub lift : Result A → Exec D A
  lift r s = (r, s)

  -- a command that only reads
  pub read : (D → A) → Exec D A
  read f s = (answer (next_outcome s.net) (f s.db), record s { net = later s.net })

  -- a command that only reads, and whose error the code reads as an empty answer
  pub read_or : A → (D → A) → Exec D A
  read_or a f s = (ok (answer_or a (next_outcome s.net) (f s.db)), record s { net = later s.net })

  -- A pipeline, or a script, that runs the commands that `f` gives and answers with a value. A
  -- pipeline gives commands that do not depend on the database.
  pub batch : (D → Command → D) → (D → List Command × A) → Exec D A
  batch write f s =
      let (cs, a) = f s.db in
      let o = next_outcome s.net in
      (answer o a, record { db = run_all write (written o cs) s.db; net = later s.net })

  -- `_ = e`: the error is dropped
  pub attempt : Exec D A → Exec D (Unit {0})
  attempt m s = let (r, s') = m s in (ignored r, s')

  -- `v, err := e` where the code goes on from either
  pub try : Exec D A → Exec D (Option A)
  try m s = let (r, s') = m s in (ok (result_option r), s')

  -- the same, where the code looks at which error it is
  pub catch : Exec D A → Exec D (Result A)
  catch m s = let (r, s') = m s in (ok r, s')

  -- a batch that answers has run all of its commands
  pub batch-ok :
      (write : D → Command → D) (f : D → List Command × A) (s : State D) (a : A)
      → (batch write f s).0 ≡ ok a
      → (batch write f s).1.db ≡ run_all write (f s.db).0 s.db
  unfolding batch
  batch-ok write f s a h = rw (answer-ok (next_outcome s.net) (f s.db).1 a (f s.db).0 h) refl

-- an action with the outcomes of its own exchanges given
abbrev pub under {ℓ} : {D : Type 0} {A : Type ℓ} → List Outcome → Exec D A → Exec D A
under net m s = m (record s { net = net })

module _ {ℓ κ} {D : Type 0} {A : Type ℓ} {B : Type κ} where
  abbrev pub continue : Result A → (A → Exec D B) → Exec D B
  continue (ok a) f s = f a s
  continue (err e) f s = (err e, s)

  infixl 10 ◌>>=◌ ◌>>◌
  -- to open this is to open the ways to build an action
  unfoldable pub ◌>>=◌ : Exec D A → (A → Exec D B) → Exec D B
  unfolding pure raise lift read read_or batch attempt try catch
  ◌>>=◌ m f s = let (r, s') = m s in continue r f s'

  abbrev pub ◌>>◌ : Exec D A → Exec D B → Exec D B
  m >> n = m >>= λ _. n

  -- an action that answers is followed by the next
  pub bind-ok :
      (m : Exec D A) (f : A → Exec D B) (s : State D) (a : A)
      → (m s).0 ≡ ok a
      → (m >>= f) s ≡ f a (m s).1
  unfolding ◌>>=◌
  bind-ok m f s a h = ap (λ r. continue r f (m s).1) h
