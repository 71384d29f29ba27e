-- ===== src/Store/Peers/Capabilities.antt =====
-- internal/store/peers.go: the capabilities of a peer, which are joined with commas and split again.
use Prim.Native.Char.{Char, code}
use relayra.Prelude.{
  String, ◌≡◌, refl, sym, ap, ◌∙◌, append_assoc, false, List, [], ◌∷◌, ◌++◌, ◌==◌, ◌==ₛ◌, All,
  Bool-cases, inl, inr, eq_iff,
}
use relayra.Text.{
  chars, of_chars, is_space, trim_left, trim_right, trim_space, split_chars, join_chars, join,
}
use relayra.Store.Peers.{keep_parts, split_capabilities}

-- neither a space nor a comma
abbrev pub IsPlain : Char → Type 0
IsPlain c = (is_space (code c) ≡ false) × ((code c == 44) ≡ false)

-- a name that is not empty and has neither spaces nor commas
abbrev pub IsName : String → Type 0
IsName String.[] = ⊥
IsName (String.◌∷◌ c s) = IsPlain c × All IsPlain (chars s)

of_chars-chars : (s : String) → of_chars (chars s) ≡ s
of_chars-chars String.[] = refl
of_chars-chars (String.◌∷◌ c s) = ap (λ t. String.◌∷◌ c t) (of_chars-chars s)

chars-of_chars : (cs : List Char) → chars (of_chars cs) ≡ cs
chars-of_chars [] = refl
chars-of_chars (c ∷ cs) = ap (λ l. c ∷ l) (chars-of_chars cs)

trim_right-plain : (cs : List Char) → All IsPlain cs → trim_right cs ≡ cs
trim_right-plain [] h = refl
trim_right-plain (c ∷ []) (h, hs) = rw (h.0) refl
trim_right-plain (c ∷ d ∷ cs) (h, hs) = rw (trim_right-plain (d ∷ cs) hs) refl

trim_left-plain : (c : Char) (cs : List Char) → IsPlain c → trim_left (c ∷ cs) ≡ c ∷ cs
trim_left-plain c cs h = rw (h.0) refl

trim_space-IsName : (s : String) → IsName s → trim_space s ≡ s
unfolding trim_space
trim_space-IsName String.[] h = absurd h
trim_space-IsName (String.◌∷◌ c s) (h, hs) =
    ap (λ l. of_chars (trim_right l)) (trim_left-plain c (chars s) h)
    ∙ ap of_chars (trim_right-plain (c ∷ chars s) (h, hs))
    ∙ of_chars-chars (String.◌∷◌ c s)

trim_space-IsName-kept : (s : String) → IsName s → trim_space (of_chars (chars s)) ≡ s
trim_space-IsName-kept s h = ap trim_space (of_chars-chars s) ∙ trim_space-IsName s h

not_blank : (s : String) → IsName s → (s ==ₛ "") ≡ false
not_blank String.[] h = absurd h
not_blank (String.◌∷◌ c s) h = elim (Bool-cases (String.◌∷◌ c s ==ₛ "")) [
  | inl blank ↦ let none_left = (eq_iff (String.◌∷◌ c s) "").0 blank in absurd (cc none_left)
  | inr there ↦ there
]

keep_parts-IsName :
    (s : String) (parts : List (List Char))
    → IsName s
    → keep_parts (chars s ∷ parts) ≡ s ∷ keep_parts parts
keep_parts-IsName s parts h = rw (trim_space-IsName-kept s h, not_blank s h) refl

split_chars-plain : (cs : List Char) → All IsPlain cs → split_chars 44 cs ≡ (cs, [])
split_chars-plain [] h = refl
split_chars-plain (c ∷ cs) (h, hs) = rw (split_chars-plain cs hs, h.1) refl

split_chars-comma :
    (cs rest : List Char)
    → All IsPlain cs
    → split_chars 44 (cs ++ "," ∷ rest) ≡ (cs, (split_chars 44 rest).0 ∷ (split_chars 44 rest).1)
split_chars-comma [] rest h = refl
split_chars-comma (c ∷ cs) rest (h, hs) = rw (split_chars-comma cs rest hs, h.1) refl

chars-IsPlain : (s : String) → IsName s → All IsPlain (chars s)
chars-IsPlain String.[] h = absurd h
chars-IsPlain (String.◌∷◌ c s) h = h

abbrev parts_kept : List Char × List (List Char) → List String
parts_kept (part, parts) = keep_parts (part ∷ parts)

parts_lem :
    (s : String) (rest : List String)
    → IsName s
    → All IsName rest
    → parts_kept (split_chars 44 (join_chars (chars ",") (s ∷ rest))) ≡ s ∷ rest
parts_lem s [] h hs =
    ap parts_kept (split_chars-plain (chars s) (chars-IsPlain s h)) ∙ keep_parts-IsName s [] h
parts_lem s (t ∷ rest) h (k, ks) =
    ap (λ cs. parts_kept (split_chars 44 cs))
      (append_assoc (chars s) (chars ",") (join_chars (chars ",") (t ∷ rest)))
    ∙ ap parts_kept
        (split_chars-comma (chars s) (join_chars (chars ",") (t ∷ rest)) (chars-IsPlain s h))
    ∙ keep_parts-IsName s
        ((split_chars 44 (join_chars (chars ",") (t ∷ rest))).0
          ∷ (split_chars 44 (join_chars (chars ",") (t ∷ rest))).1)
        h
    ∙ ap (λ l. s ∷ l) (parts_lem t rest k ks)

-- what starts with a character that is no space is not blank
trim_right-head :
    (c : Char) (cs : List Char) → IsPlain c → (ds : List Char) × (trim_right (c ∷ cs) ≡ c ∷ ds)
trim_right-head c cs h = go (trim_right cs) refl
  where
    go : (t : List Char) → trim_right cs ≡ t → (ds : List Char) × (trim_right (c ∷ cs) ≡ c ∷ ds)
    go [] e = ([], rw (e, h.0) refl)
    go (d ∷ ds) e = (d ∷ ds, rw e refl)

starts-not_blank :
    (c : Char) (cs : List Char) → IsPlain c → (trim_space (of_chars (c ∷ cs)) ==ₛ "") ≡ false
unfolding trim_space
starts-not_blank c cs h =
    let (ds, kept) = trim_right-head c (chars (of_chars cs)) h in
    let trimmed : trim_space (of_chars (c ∷ cs)) ≡ String.◌∷◌ c (of_chars ds) =
      ap (λ l. of_chars (trim_right l)) (trim_left-plain c (chars (of_chars cs)) h)
      ∙ ap of_chars kept in
    elim (Bool-cases (trim_space (of_chars (c ∷ cs)) ==ₛ "")) [
      | inl blank ↦
          let none_left = sym trimmed ∙ (eq_iff (trim_space (of_chars (c ∷ cs))) "").0 blank in
          absurd (cc none_left)
      | inr there ↦ there
    ]

join-not_blank :
    (s : String) (rest : List String) → IsName s → (trim_space (join "," (s ∷ rest)) ==ₛ "") ≡ false
unfolding join
join-not_blank String.[] rest h = absurd h
join-not_blank (String.◌∷◌ c s) [] h = starts-not_blank c (chars s) h.0
join-not_blank (String.◌∷◌ c s) (t ∷ rest) h = starts-not_blank c _ h.0

-- capabilities that are names come back as they were
pub split_capabilities-join :
    (caps : List String) → All IsName caps → split_capabilities (join "," caps) ≡ caps
unfolding split_capabilities join trim_space
split_capabilities-join [] h = refl
split_capabilities-join (s ∷ rest) (h, hs) =
    rw (join-not_blank s rest h, chars-of_chars (join_chars (chars ",") (s ∷ rest)))
      (parts_lem s rest h hs)
