-- ===== src/Proxy/Choice.antt =====
-- internal/proxy/manager.go: the choice that `GetTransport` makes.
use relayra.Prelude.{
  ℕ, String, ◌≡◌, refl, ap, sym, ◌∙◌, arith, List, [], ◌∷◌, true, false, Bool, not, ◌&&◌, inl, inr,
  Bool-cases, Option, none, some, if◌then◌else◌, ◌==ₛ◌,
}
use relayra.Errors.{Result, ok, err}
use relayra.Redis.{Redis}
use relayra.Redis.Actions.{State, bind-ok, ◌>>=◌}
use relayra.Proxy.{
  Manager, ProxyInfo, in_cooldown, direct_url, choose, mark_failed, get_transport, list_proxies,
  some_listed,
}

module _ (creates : String → Bool) (m : Manager) (now : ℕ) where
  abbrev pub usable : ProxyInfo → Bool
  usable p = not (in_cooldown m now p) && creates p.url

  -- the first proxy of the list that can be used
  abbrev pub first_usable : List ProxyInfo → Option String
  first_usable [] = none
  first_usable (p ∷ ps) = let rest = first_usable ps in if usable p then some p.url else rest

  -- without one, the direct connection, where it is allowed
  abbrev pub or_direct : Option String → Option String
  or_direct none = if m.allow_direct then some direct_url else none
  or_direct (some url) = some url

  abbrev pub choice : List ProxyInfo → Option String
  choice ps = or_direct (first_usable ps)

  first_usable-cons :
      (p : ProxyInfo) (ps : List ProxyInfo) (used : Bool)
      → usable p ≡ used
      → first_usable (p ∷ ps) ≡ (if used then some p.url else first_usable ps)
  first_usable-cons p ps used h = ap (λ b. if b then some p.url else first_usable ps) h

  abbrev pub value_or_none : Result String → Option String
  value_or_none (ok url) = some url
  value_or_none (err _) = none

  module _ ⦃R : Redis⦄ where
    open R use {Db}

    mark_failed-ok : (url : String) (s : State Db) → (mark_failed url now s).0 ≡ ok tt
    unfolding mark_failed ◌>>=◌
    mark_failed-ok url s = elim (Bool-cases (url ==ₛ direct_url)) [
      | inl same ↦ rw same refl
      | inr other ↦ rw other refl
    ]

    choose-choice :
        (ps : List ProxyInfo) (s : State Db)
        → value_or_none (choose creates m now ps s).0 ≡ choice ps
    unfolding choose ◌>>=◌
    choose-choice [] s = ground arith
    choose-choice (p ∷ ps) s = elim (Bool-cases (in_cooldown m now p)) [
      | inl skipped ↦
          let e = first_usable-cons p ps false (ground (arith, skipped)) in
          rw skipped (choose-choice ps s) ∙ ap or_direct (sym e)
      | inr tried ↦ elim (Bool-cases (creates p.url)) [
        | inl made ↦
            let e = first_usable-cons p ps true (ground (arith, tried, made)) in
            rw (tried, made) refl ∙ ap or_direct (sym e)
        | inr broken ↦
            let e = first_usable-cons p ps false (ground (arith, tried, broken)) in
            let passed =
              bind-ok (mark_failed p.url now) (λ _. choose creates m now ps) s tt
                (mark_failed-ok p.url s) in
            rw (tried, broken)
              (ap (λ r. value_or_none r.0) passed ∙ choose-choice ps (mark_failed p.url now s).1)
            ∙ ap or_direct (sym e)
      ]
    ]

    some_listed-choice :
        (ps : List ProxyInfo) (s : State Db)
        → value_or_none (some_listed creates m now ps s).0 ≡ choice ps
    unfolding some_listed ◌>>=◌
    some_listed-choice [] s = ground arith
    some_listed-choice (p ∷ ps) s = choose-choice (p ∷ ps) s

    -- Where the proxies can be listed, `GetTransport` gives the first of them, in the order of the
    -- list, that is not in its cooldown and for which a transport can be made; without one it gives
    -- the direct connection, or an error if that is not allowed. This holds whatever exchanges fail
    -- after the listing.
    pub get_transport-choice :
        (s : State Db) (ps : List ProxyInfo)
        → (list_proxies s).0 ≡ ok ps
        → value_or_none (get_transport creates m now s).0 ≡ choice ps
    unfolding get_transport
    get_transport-choice s ps h =
        rw (bind-ok list_proxies (some_listed creates m now) s ps h)
          (some_listed-choice ps (list_proxies s).1)
