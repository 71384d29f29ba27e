-- ===== src/Config/Valid.antt =====
-- internal/config/config.go: `Validate` accepts exactly the configurations that its checks describe.
use relayra.Prelude.{
  ℕ, ◌≤◌, String, ◌≡◌, ◌⊎◌, ◌↔◌, ◌≢◌, inl, inr, refl, Bool, true, false, not, none, List, [], ◌∷◌,
  length, ◌==ₛ◌, ℤ, pos, negsuc, ltb_ℤ, arith, eq_iff, All, Bool-cases,
}
use relayra.Store.Proxies.Hash.{utf8}
use relayra.Config.{
  Config, Invalid, normalized_transport_mode, is_mode, is_backend, is_role, is_port, first_failure,
  checks, validate,
}

-- an `int` that is a natural number between two others, or at least one
abbrev pub AtLeast : ℕ → ℤ → Type 0
AtLeast low v = (n : ℕ) × (v ≡ pos n) × (low ≤ n)

abbrev pub Within : ℕ → ℕ → ℤ → Type 0
Within low high v = (n : ℕ) × (v ≡ pos n) × (low ≤ n) × (n ≤ high)

-- the numbers that have to be positive
abbrev pub positives : Config → List ℤ
positives c =
    c.redis_pool_size ∷ c.poll_interval ∷ c.poll_batch_size ∷ c.request_timeout ∷ c.long_poll_wait
    ∷ c.async_workers ∷ c.proxy_cooldown_seconds ∷ c.ws_ping_interval ∷ c.ws_keepalive_interval
    ∷ c.ws_write_timeout ∷ c.ws_idle_timeout ∷ c.ws_reconnect_base_seconds ∷ c.result_ttl ∷ []

pub record IsValid (c : Config) : Type 0 where
  pub machine_id : c.machine_id ≢ ""
  pub instance_name : c.instance_name ≢ ""
  pub instance_name_length : length (utf8 c.instance_name) ≤ 32
  pub role : (c.role ≡ "listener") ⊎ (c.role ≡ "sender")
  pub storage_backend : is_backend c.storage_backend ≡ true
  pub listen_port : Within 1 65535 c.listen_port
  pub redis_port : Within 1 65535 c.redis_port
  pub positive : All (AtLeast 1) (positives c)
  pub chunk_size : AtLeast 1024 c.transport_chunk_size_bytes
  pub mode : is_mode (normalized_transport_mode c) ≡ true
  pub reconnect : ltb_ℤ c.ws_reconnect_max_seconds c.ws_reconnect_base_seconds ≡ false

first_failure-none :
    (cs : List (Bool × Invalid)) → first_failure cs ≡ none → All (λ c. c.0 ≡ false) cs
first_failure-none [] h = tt
first_failure-none ((true, e) ∷ cs) h = absurd (cc h)
first_failure-none ((false, e) ∷ cs) h = (refl, first_failure-none cs h)

none-first_failure :
    (cs : List (Bool × Invalid)) → All (λ c. c.0 ≡ false) cs → first_failure cs ≡ none
none-first_failure [] h = refl
none-first_failure ((b, e) ∷ cs) (passes, rest) = rw passes (none-first_failure cs rest)

at_least : (low : ℕ) (v : ℤ) → ltb_ℤ v (pos low) ≡ false → AtLeast low v
at_least low (pos n) h = (n, refl, ground (arith, h))
at_least low (negsuc n) h = absurd (cc h)

not_below : (low : ℕ) (v : ℤ) → AtLeast low v → ltb_ℤ v (pos low) ≡ false
not_below low v (n, e, h) = rw e (ground (arith, h))

within : (v : ℤ) → not (is_port v) ≡ false → Within 1 65535 v
within (pos n) h = (n, refl, ground (arith, h), ground (arith, h))
within (negsuc n) h = absurd (cc h)

is_port-within : (v : ℤ) → Within 1 65535 v → not (is_port v) ≡ false
is_port-within v (n, e, low, high) = rw e (ground (arith, low, high))

differs : (a b : String) → (a ==ₛ b) ≡ false → a ≢ b
differs a b h e = absurd (cc ((eq_iff a b).1 e, h))

differs_back : (a b : String) → a ≢ b → (a ==ₛ b) ≡ false
differs_back a b h = elim (Bool-cases (a ==ₛ b)) [
  | inl same ↦ absurd (h ((eq_iff a b).0 same))
  | inr other ↦ other
]

one_of : (v : String) → not (is_role v) ≡ false → (v ≡ "listener") ⊎ (v ≡ "sender")
one_of v h = elim (Bool-cases (v ==ₛ "listener")) [
  | inl same ↦ inl ((eq_iff v "listener").0 same)
  | inr other ↦ inr ((eq_iff v "sender").0 (ground (arith, h, other)))
]

one_of_back : (v : String) → (v ≡ "listener") ⊎ (v ≡ "sender") → not (is_role v) ≡ false
one_of_back v (inl e) = rw e refl
one_of_back v (inr e) = rw e refl

passed : (b : Bool) → not b ≡ false → b ≡ true
passed true h = refl
passed false h = absurd (cc h)

failed_not : (b : Bool) → b ≡ true → not b ≡ false
failed_not true h = refl
failed_not false h = absurd (cc h)

-- `Validate` returns no error exactly where the name and the machine's identifier are there, the
-- name has at most 32 bytes, the role, the storage and the transport mode are among those that
-- exist, the ports are from 1 to 65535, the chunk size is at least 1024, the longest time between
-- two connections is no shorter than the first, and the other numbers are positive.
pub validate-IsValid : (c : Config) → (validate c ≡ none) ↔ IsValid c
unfolding validate checks
validate-IsValid c = (valid, accepted)
  where
    valid : validate c ≡ none → IsValid c
    valid h =
        let (
          a,
          (
            b,
            (
              l,
              (
                r,
                (
                  st,
                  (
                    p,
                    (
                      q,
                      (
                        n1,
                        (
                          n2,
                          (
                            n3,
                            (
                              n4,
                              (
                                n5,
                                (
                                  n6,
                                  (md, (n7, (ch, (n8, (n9, (n10, (n11, (n12, (rc, (n13, _)))))))))),
                                ),
                              ),
                            ),
                          ),
                        ),
                      ),
                    ),
                  ),
                ),
              ),
            ),
          ),
        ) =
          first_failure-none (checks c) h in
        record {
          machine_id = differs _ _ a;
          instance_name = differs _ _ b;
          instance_name_length = ground (arith, l);
          role = one_of c.role r;
          storage_backend = passed _ st;
          listen_port = within _ p;
          redis_port = within _ q;
          positive = (
            at_least 1 _ n1,
            (
              at_least 1 _ n2,
              (
                at_least 1 _ n3,
                (
                  at_least 1 _ n4,
                  (
                    at_least 1 _ n5,
                    (
                      at_least 1 _ n6,
                      (
                        at_least 1 _ n7,
                        (
                          at_least 1 _ n8,
                          (
                            at_least 1 _ n9,
                            (
                              at_least 1 _ n10,
                              (at_least 1 _ n11, (at_least 1 _ n12, (at_least 1 _ n13, tt))),
                            ),
                          ),
                        ),
                      ),
                    ),
                  ),
                ),
              ),
            ),
          );
          chunk_size = at_least 1024 _ ch;
          mode = passed _ md;
          reconnect = rc;
        }

    accepted : IsValid c → validate c ≡ none
    accepted v =
        let (n1, (n2, (n3, (n4, (n5, (n6, (n7, (n8, (n9, (n10, (n11, (n12, (n13, _))))))))))))) =
          v.positive in
        none-first_failure (checks c) (
          differs_back _ _ v.machine_id,
          (
            differs_back _ _ v.instance_name,
            (
              ground (arith, v.instance_name_length),
              (
                one_of_back _ v.role,
                (
                  failed_not _ v.storage_backend,
                  (
                    is_port-within _ v.listen_port,
                    (
                      is_port-within _ v.redis_port,
                      (
                        not_below 1 _ n1,
                        (
                          not_below 1 _ n2,
                          (
                            not_below 1 _ n3,
                            (
                              not_below 1 _ n4,
                              (
                                not_below 1 _ n5,
                                (
                                  not_below 1 _ n6,
                                  (
                                    failed_not _ v.mode,
                                    (
                                      not_below 1 _ n7,
                                      (
                                        not_below 1024 _ v.chunk_size,
                                        (
                                          not_below 1 _ n8,
                                          (
                                            not_below 1 _ n9,
                                            (
                                              not_below 1 _ n10,
                                              (
                                                not_below 1 _ n11,
                                                (
                                                  not_below 1 _ n12,
                                                  (v.reconnect, (not_below 1 _ n13, tt)),
                                                ),
                                              ),
                                            ),
                                          ),
                                        ),
                                      ),
                                    ),
                                  ),
                                ),
                              ),
                            ),
                          ),
                        ),
                      ),
                    ),
                  ),
                ),
              ),
            ),
          ),
        )
