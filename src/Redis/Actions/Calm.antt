-- ===== src/Redis/Actions/Calm.antt =====
-- Invariants of actions that hold where every exchange succeeds, one rule for each way to build an
-- action. The action then ends where every exchange to come succeeds, too.
use relayra.Prelude.{◌≡◌, refl, ap, ◌∙◌, Bool, true, false, List, if◌then◌else◌, sym, subst}
use relayra.Errors.{Result, ok, err}
use relayra.Redis.Objects.{Command}
use relayra.Redis.Actions.{
  calm, Exec, run_all, pure, read, read_or, batch, attempt, continue, ignored, ◌>>=◌,
}

-- what an action comes to from a database
pub record Ends {ℓ} {D : Type 0} {A : Type ℓ} (P : D → Type 0) (m : Exec D A) (d : D) : Type ℓ where
  pub result : Result A
  pub after : D
  pub ran : m (calm d) ≡ (result, calm after)
  pub holds : P after

pub record AlwaysCalm {ℓ} {D : Type 0} {A : Type ℓ} (P : D → Type 0) (m : Exec D A) : Type ℓ where
  pub at : (d : D) → P d → Ends P m d

module _ {ℓ} {D : Type 0} {A : Type ℓ} {P : D → Type 0} where
  pub Ends-holds : {m : Exec D A} {d : D} → Ends P m d → P (m (calm d)).1.db
  Ends-holds e = subst (λ r. P r.1.db) (sym e.ran) e.holds

  pub Ends-mono :
      (Q : D → Type 0) → ((d : D) → Q d → P d) → {m : Exec D A} {d : D} → Ends Q m d → Ends P m d
  Ends-mono Q weaken e = record {
    result = e.result;
    after = e.after;
    ran = e.ran;
    holds = weaken e.after e.holds;
  }

  pub AlwaysCalm-pure : (a : A) → AlwaysCalm P (pure a)
  unfolding pure
  AlwaysCalm-pure a = record {
    at = λ d h. record { result = ok a; after = d; ran = refl; holds = h };
  }

  pub AlwaysCalm-batch :
      (write : D → Command → D) (f : D → List Command × A)
      → ((d : D) → P d → P (run_all write (f d).0 d))
      → AlwaysCalm P (batch write f)
  unfolding batch
  AlwaysCalm-batch write f kept = record {
    at = λ d h. record {
      result = ok (f d).1;
      after = run_all write (f d).0 d;
      ran = refl;
      holds = kept d h;
    };
  }

  pub AlwaysCalm-attempt : (m : Exec D A) → AlwaysCalm P m → AlwaysCalm P (attempt m)
  unfolding attempt
  AlwaysCalm-attempt m k = record {
    at = λ d h.
        let e = k.at d h in
        record {
          result = ok tt;
          after = e.after;
          ran = ap (λ r. (ignored r.0, r.1)) e.ran;
          holds = e.holds;
        };
  }

  pub AlwaysCalm-if :
      (b : Bool) (m n : Exec D A)
      → (b ≡ true → AlwaysCalm P m)
      → (b ≡ false → AlwaysCalm P n)
      → AlwaysCalm P (if b then m else n)
  AlwaysCalm-if true m n km kn = km refl
  AlwaysCalm-if false m n km kn = kn refl

module _ {ℓ κ} {D : Type 0} {A : Type ℓ} {B : Type κ} {P : D → Type 0} where
  Ends-continue :
      (r : Result A) (f : A → Exec D B)
      → ((a : A) → AlwaysCalm P (f a))
      → (d : D) → P d
      → Ends P (continue r f) d
  Ends-continue (ok a) f kf d h = (kf a).at d h
  Ends-continue (err e) f kf d h = record { result = err e; after = d; ran = refl; holds = h }

  pub AlwaysCalm-bind :
      (m : Exec D A) (f : A → Exec D B)
      → AlwaysCalm P m
      → ((a : A) → AlwaysCalm P (f a))
      → AlwaysCalm P (m >>= f)
  unfolding ◌>>=◌
  AlwaysCalm-bind m f km kf = record {
    at = λ d h.
        let e = km.at d h in
        let c = Ends-continue e.result f kf e.after e.holds in
        record {
          result = c.result;
          after = c.after;
          ran = ap (λ r. continue r.0 f r.1) e.ran ∙ c.ran;
          holds = c.holds;
        };
  }

  -- what follows a read may use what was read
  pub AlwaysCalm-read-bind :
      (f : D → A) (g : A → Exec D B)
      → ((d : D) → P d → Ends P (g (f d)) d)
      → AlwaysCalm P (read f >>= g)
  unfolding ◌>>=◌
  AlwaysCalm-read-bind f g h = record {
    at = λ d p.
        let e = h d p in
        record { result = e.result; after = e.after; ran = e.ran; holds = e.holds };
  }

  pub AlwaysCalm-read_or-bind :
      (a : A) (f : D → A) (g : A → Exec D B)
      → ((d : D) → P d → Ends P (g (f d)) d)
      → AlwaysCalm P (read_or a f >>= g)
  unfolding ◌>>=◌
  AlwaysCalm-read_or-bind a f g h = record {
    at = λ d p.
        let e = h d p in
        record { result = e.result; after = e.after; ran = e.ran; holds = e.holds };
  }
