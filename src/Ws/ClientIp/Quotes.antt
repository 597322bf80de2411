-- ===== src/Ws/ClientIp/Quotes.antt =====
-- A client's part of the Forwarded header that opens quotes and does not close them.
use network_ultra_server.Prelude.{
  All, ℕ, ◌≡◌, ◌<◌, refl, ap, sym, ◌∙◌, inl, inr, ◌⊎◌, Bool, true, false, not, ◌&&◌, List, [], ◌∷◌,
  ◌++◌, Option, none, some, arith, ◌==◌, nat_eqb, length, Bool-cases, Option-cases, bytes_eq,
}
use network_ultra_server.Strings.{Bytes, join, trim_space}
use network_ultra_server.Net.{Addr, Prefix}
use network_ultra_server.Ws.ClientIp.{
  Addresses, after_byte, split_from, split_outside_quotes, parse_element, parse_each,
  parse_forwarded, parse_remote_ip, is_trusted_proxy, origin, chain_of, client_ip,
}
use network_ultra_server.Ws.ClientIp.Walk.{last_without, parse_each-append, settles}

abbrev pub NoBackslash : Bytes → Type 0
NoBackslash s = All (λ c. nat_eqb c b'\\' ≡ false) s

after_byte-not :
    (quoted : Bool) (c : ℕ)
    → nat_eqb c b'\\' ≡ false
    → (q : Bool) × (after_byte quoted false c ≡ (q, false))
      × (after_byte (not quoted) false c ≡ (not q, false))
unfolding after_byte
after_byte-not true c h = elim (Bool-cases (nat_eqb c b'"')) [
  | inl y ↦ (false, ground arith, ground arith)
  | inr n ↦ (true, ground arith, ground arith)
]
after_byte-not false c h = elim (Bool-cases (nat_eqb c b'"')) [
  | inl y ↦ (true, ground arith, ground arith)
  | inr n ↦ (false, ground arith, ground arith)
]

-- Only within quotes a backslash escapes.
after_byte_open :
    (quoted escaped : Bool) (c : ℕ)
    → (quoted ≡ true) ⊎ (escaped ≡ false)
    → ((after_byte quoted escaped c).0 ≡ true) ⊎ ((after_byte quoted escaped c).1 ≡ false)
unfolding after_byte
after_byte_open true true c ok = inl refl
after_byte_open true false c ok = elim (Bool-cases (nat_eqb c b'\\')) [
  | inl y ↦ inl (ground arith)
  | inr n ↦ inr (ground arith)
]
after_byte_open false true c ok = absurd (ground arith)
after_byte_open false false c ok = inr (ground arith)

-- A step fails if the rest does.
split_from_fails :
    (sep : ℕ) (quoted escaped q e : Bool) (c : ℕ) (cs : Bytes)
    → after_byte quoted escaped c ≡ (q, e)
    → split_from sep q e cs ≡ none
    → split_from sep quoted escaped (c ∷ cs) ≡ none
unfolding split_from
split_from_fails sep quoted escaped q e c cs next bad = rw (split_from, next, bad) refl

-- A text without backslashes that closes its quotes leaves them open behind an open quote.
split_from_parity :
    (sep : ℕ) (quoted : Bool) (s : Bytes) (r : Bytes × List Bytes)
    → NoBackslash s
    → split_from sep quoted false s ≡ some r
    → split_from sep (not quoted) false s ≡ none
unfolding split_from
split_from_parity sep true [] r plain h = ground arith
split_from_parity sep false [] r plain h = ground arith
split_from_parity sep quoted (c ∷ cs) r (other_byte, plain) h =
    let (q, next, other) = after_byte-not quoted c other_byte in
    elim (Option-cases (split_from sep q false cs)) [
      | inl bad ↦
          let fails = split_from_fails sep quoted false q false c cs next bad in
          absurd (ground arith)
      | inr (rest, good) ↦
          split_from_fails sep (not quoted) false (not q) false c cs other
            (split_from_parity sep q cs rest plain good)
    ]

module _ (appended : Bytes) (p : Bytes) (ps : List Bytes)
    (ends : split_from b',' false false appended ≡ some (p, ps))
    (filled : (trim_space p == []) ≡ false) (plain : NoBackslash appended) where
  -- What the whole text comes to: nothing, or further parts before the ones of the appended text.
  IsBehind : Option (Bytes × List Bytes) → Type 0
  IsBehind o =
      (o ≡ none)
      ⊎ ((part : Bytes) × (before : List Bytes) × (o ≡ some (part, before ++ (trim_space p ∷ ps))))

  separates : split_from b',' false false (b',' ∷ appended) ≡ some ([], trim_space p ∷ ps)
  unfolding split_from after_byte
  separates = rw (split_from, ends, filled) refl

  quoted_fails : (escaped : Bool) → split_from b',' true escaped (b',' ∷ appended) ≡ none
  unfolding after_byte
  quoted_fails true =
      split_from_fails b',' true true true false b',' appended refl
        (split_from_parity b',' false appended (p, ps) plain ends)
  quoted_fails false =
      split_from_fails b',' true false true false b',' appended refl
        (split_from_parity b',' false appended (p, ps) plain ends)

  step-IsBehind :
      (quoted escaped q e : Bool) (c : ℕ) (cs : Bytes)
      → after_byte quoted escaped c ≡ (q, e)
      → IsBehind (split_from b',' q e cs)
      → IsBehind (split_from b',' quoted escaped (c ∷ cs))
  unfolding IsBehind split_from
  step-IsBehind quoted escaped q e c cs next (inl bad) =
      inl (split_from_fails b',' quoted escaped q e c cs next bad)
  step-IsBehind quoted escaped q e c cs next (inr (part, before, good)) =
      elim (Bool-cases (not escaped && (not quoted && (nat_eqb c b',' && not (nat_eqb c b'"'))))) [
        | inr kept ↦ inr (c ∷ part, before, rw (split_from, next, good, kept) refl)
        | inl cut ↦ elim (Bool-cases (trim_space part == [])) [
          | inl nothing ↦ inl (rw (split_from, next, good, cut, nothing) refl)
          | inr something ↦
              inr ([], trim_space part ∷ before, rw (split_from, next, good, cut, something) refl)
        ]
      ]

  behind :
      (quoted escaped : Bool) (client : Bytes)
      → (quoted ≡ true) ⊎ (escaped ≡ false)
      → IsBehind (split_from b',' quoted escaped (client ++ (b',' ∷ appended)))
  unfolding IsBehind after_byte
  behind true escaped [] ok = inl (quoted_fails escaped)
  behind false true [] ok = absurd (ground arith)
  behind false false [] ok = inr ([], [], separates)
  behind quoted escaped (c ∷ cs) ok =
      let (q, e) = after_byte quoted escaped c in
      step-IsBehind quoted escaped q e c (cs ++ (b',' ∷ appended)) refl
        (behind q e cs (after_byte_open quoted escaped c ok))

  outside_quotes :
      (client : Bytes)
      → (split_outside_quotes (client ++ (b',' ∷ appended)) b',' ≡ none)
        ⊎ ((before : List Bytes) × (split_outside_quotes (client ++ (b',' ∷ appended)) b','
              ≡ some (before ++ (trim_space p ∷ ps))))
  unfolding split_outside_quotes IsBehind
  outside_quotes client = elim (behind false false client (inr refl)) [
    | inl bad ↦ inl (rw (split_outside_quotes, bad) refl)
    | inr (part, before, good) ↦ elim (Bool-cases (trim_space part == [])) [
      | inl nothing ↦ inl (rw (split_outside_quotes, good, nothing) refl)
      | inr something ↦
          inr (trim_space part ∷ before, rw (split_outside_quotes, good, something) refl)
    ]
  ]

-- The parts of a text, with what splitting it gave.
split_outside_quotes_parts :
    (text : Bytes) (parts : List Bytes)
    → split_outside_quotes text b',' ≡ some parts
    → (p : Bytes) × (ps : List Bytes) × (split_from b',' false false text ≡ some (p, ps))
      × ((trim_space p == []) ≡ false)
      × (parts ≡ trim_space p ∷ ps)
unfolding split_outside_quotes
split_outside_quotes_parts text parts h = elim (Option-cases (split_from b',' false false text)) [
  | inl bad ↦ absurd (ground arith)
  | inr ((p, ps), good) ↦ (p, ps, good, ground arith, ground arith)
]

module _ (lib : Addresses) (prefixes : List Prefix) where
  forwarded_behind :
      (client appended : Bytes) (parts : List Bytes) (chain : List Addr)
      → NoBackslash appended
      → split_outside_quotes appended b',' ≡ some parts
      → parse_each (parse_element lib) parts ≡ some chain
      → (values : List Bytes) → join values b',' ≡ client ++ (b',' ∷ appended)
      → (parse_forwarded lib values ≡ none)
        ⊎ ((before : List Addr) × (parse_forwarded lib values ≡ some (before ++ chain)))
  unfolding parse_forwarded
  forwarded_behind client appended parts chain plain split_at good values text =
      let (p, ps, ends, filled, e) = split_outside_quotes_parts appended parts split_at in
      elim (outside_quotes appended p ps ends filled plain client) [
        | inl bad ↦ inl (rw (parse_forwarded, text, bad) refl)
        | inr (before, parts_of) ↦
            elim (parse_each-append (parse_element lib) before (trim_space p ∷ ps) chain
              (ap (parse_each (parse_element lib)) (sym e) ∙ good)) [
                | inl bad ↦ inl (rw (parse_forwarded, text, parts_of) bad)
                | inr (first, whole) ↦ inr (first, rw (parse_forwarded, text, parts_of) whole)
              ]
      ]

  behind_proxy :
      (remote : Bytes) (values others : List Bytes) (direct : Addr)
      → parse_remote_ip lib remote ≡ some direct
      → is_trusted_proxy prefixes direct ≡ true
      → 0 < length values
      → client_ip lib prefixes remote values others
        ≡ lib.addr_text (origin prefixes direct (parse_forwarded lib values))
  unfolding client_ip chain_of
  behind_proxy remote values others direct at ok some_values = rw (at, client_ip, ok) (ground arith)

  -- Behind a trusted proxy, if the Forwarded text is anything at all, open quotes included, a
  -- comma and then elements without backslashes that parse by themselves and of which one names a
  -- hop that is not trusted, the client's address is the last such hop, or, if the whole text does
  -- not parse, the proxy's.
  pub client_ip_of_elements :
      (remote client appended : Bytes) (values others parts : List Bytes) (direct hop : Addr)
      (chain : List Addr)
      → parse_remote_ip lib remote ≡ some direct
      → is_trusted_proxy prefixes direct ≡ true
      → 0 < length values
      → join values b',' ≡ client ++ (b',' ∷ appended)
      → NoBackslash appended
      → split_outside_quotes appended b',' ≡ some parts
      → parse_each (parse_element lib) parts ≡ some chain
      → last_without (is_trusted_proxy prefixes) chain ≡ some hop
      → (client_ip lib prefixes remote values others ≡ lib.addr_text hop)
        ⊎ ((parse_forwarded lib values ≡ none)
            × (client_ip lib prefixes remote values others ≡ lib.addr_text direct))
  client_ip_of_elements remote client appended values others parts direct hop chain at ok
        some_values text plain split_at good found =
      settles lib prefixes direct hop chain found (client_ip lib prefixes remote values others)
        (parse_forwarded lib values) (behind_proxy remote values others direct at ok some_values)
        (forwarded_behind client appended parts chain plain split_at good values text)
