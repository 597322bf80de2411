-- ===== src/Ws/ClientIp/Walk.antt =====
-- Whose address a chain of hops comes to.
use network_ultra_server.Prelude.{
  ℕ, zero, suc, ◌≡◌, ◌≤◌, ◌<◌, refl, ap, ◌∙◌, inl, inr, ◌⊎◌, Bool, true, List, [], ◌∷◌, ◌++◌,
  Option, none, some, arith, if◌then◌else◌, length, get_or, take, Option-cases, bytes_eq,
}
use network_ultra_server.Strings.{Bytes, split, join, trim_space}
use network_ultra_server.Strings.Lemmas.{split-append}
use network_ultra_server.Net.{Addr, Prefix}
use network_ultra_server.Ws.ClientIp.{
  Addresses, parse_remote_ip, parse_forwarded_node, parse_each, parse_x_forwarded_for,
  is_trusted_proxy, walk, origin, chain_of, client_ip,
}

module _ {A : Type 0} where
  -- The last entry that a test does not hold for.
  abbrev pub last_without : (A → Bool) → List A → Option A
  last_without test [] = none
  last_without test (a ∷ rest) = elim (last_without test rest) [
    | some b ↦ some b
    | none ↦ if test a then none else some a
  ]

  abbrev pub or_else : Option A → Option A → Option A
  or_else (some a) o = some a
  or_else none o = o

  last_without-append :
      (test : A → Bool) (xs ys : List A)
      → last_without test (xs ++ ys) ≡ or_else (last_without test ys) (last_without test xs)
  last_without-append test [] ys = ground arith
  last_without-append test (x ∷ xs) ys = rw (last_without-append test xs ys) (ground arith)

  take-next :
      (n : ℕ) (xs : List A) (d : A)
      → n < length xs
      → take (suc n) xs ≡ take n xs ++ (get_or xs n d ∷ [])
  take-next n [] d h = absurd (omega arith)
  take-next zero (x ∷ xs) d h = refl
  take-next (suc n) (x ∷ xs) d h = ap (◌∷◌ x) (take-next n xs d (omega arith))

  last_without-take :
      (test : A → Bool) (n : ℕ) (xs : List A) (d : A)
      → n < length xs
      → last_without test (take (suc n) xs)
        ≡ (if test (get_or xs n d) then last_without test (take n xs) else some (get_or xs n d))
  last_without-take test n xs d h =
      rw (take-next n xs d h, last_without-append test (take n xs) (get_or xs n d ∷ []))
        (ground arith)

  take_all : (xs : List A) → take (length xs) xs ≡ xs
  take_all [] = refl
  take_all (x ∷ xs) = ap (◌∷◌ x) (take_all xs)

module _ (prefixes : List Prefix) where
  abbrev trusted : Addr → Bool
  trusted = is_trusted_proxy prefixes

  walk-take :
      (n : ℕ) (chain : List Addr)
      → n ≤ length chain
      → walk prefixes chain n ≡ last_without trusted (take n chain)
  unfolding walk
  walk-take zero chain h = refl
  walk-take (suc n) chain h =
      rw (last_without-take trusted n chain (record { ip = []; zone = [] }) (omega arith))
        (ground (arith, walk-take n chain))

  -- The loop over the indices of a chain finds its last hop that is not trusted, and the first hop
  -- if all are.
  pub origin-last_without :
      (direct first : Addr) (rest : List Addr)
      → origin prefixes direct (some (first ∷ rest))
        ≡ (elim (last_without trusted (first ∷ rest)) [ some a ↦ a | none ↦ first ])
  unfolding origin
  origin-last_without direct first rest =
      let e : walk prefixes (first ∷ rest) (length (first ∷ rest))
          ≡ last_without trusted (first ∷ rest) =
        walk-take (length (first ∷ rest)) (first ∷ rest) (omega arith)
        ∙ ap (last_without trusted) (take_all (first ∷ rest)) in
      rw (origin, e) refl

pub parse_each-append :
    (parse : Bytes → Option Addr) (xs ys : List Bytes) (chain : List Addr)
    → parse_each parse ys ≡ some chain
    → (parse_each parse (xs ++ ys) ≡ none)
      ⊎ ((before : List Addr) × (parse_each parse (xs ++ ys) ≡ some (before ++ chain)))
unfolding parse_each
parse_each-append parse [] ys chain h = inr ([], h)
parse_each-append parse (x ∷ xs) ys chain h = elim (Option-cases (parse x)) [
  | inl bad ↦ inl (ground arith)
  | inr (a, good) ↦ elim (parse_each-append parse xs ys chain h) [
    | inl bad ↦ inl (ground arith)
    | inr (before, e) ↦ inr (a ∷ before, ground arith)
  ]
]

-- The chain that the text after the client's part makes by itself.
abbrev pub hops : Addresses → Bytes → Option (List Addr)
hops lib text = parse_each (λ part. parse_forwarded_node lib (trim_space part)) (split text b',')

nearest_of_hops :
    (prefixes : List Prefix) (direct hop : Addr) (before chain : List Addr)
    → last_without (is_trusted_proxy prefixes) chain ≡ some hop
    → origin prefixes direct (some (before ++ chain)) ≡ hop
nearest_of_hops prefixes direct hop [] [] h = ground arith
nearest_of_hops prefixes direct hop [] (c ∷ cs) h =
    rw (origin-last_without prefixes direct c cs, h) refl
nearest_of_hops prefixes direct hop (b ∷ bs) chain h =
    rw (origin-last_without prefixes direct b (bs ++ chain))
      (rw (last_without-append (is_trusted_proxy prefixes) (b ∷ bs) chain, h) refl)

module _ (lib : Addresses) (prefixes : List Prefix) where
  origin-none : (direct : Addr) → origin prefixes direct none ≡ direct
  unfolding origin
  origin-none direct = refl

  -- Where a chain that could be read ends with hops of which one is not trusted, it comes to that.
  pub settles :
      (direct hop : Addr) (chain : List Addr)
      → last_without (is_trusted_proxy prefixes) chain ≡ some hop
      → (ip : Bytes) (o : Option (List Addr)) → ip ≡ lib.addr_text (origin prefixes direct o)
      → (o ≡ none) ⊎ ((before : List Addr) × (o ≡ some (before ++ chain)))
      → (ip ≡ lib.addr_text hop) ⊎ ((o ≡ none) × (ip ≡ lib.addr_text direct))
  settles direct hop chain found ip o e (inl unread) = inr (
    unread,
    e
        ∙ ap (λ c. lib.addr_text (origin prefixes direct c)) unread
        ∙ ap lib.addr_text (origin-none direct),
  )
  settles direct hop chain found ip o e (inr (before, read)) = inl (
      e
      ∙ ap (λ c. lib.addr_text (origin prefixes direct c)) read
      ∙ ap lib.addr_text (nearest_of_hops prefixes direct hop before chain found))

  behind_proxy :
      (remote : Bytes) (values : List Bytes) (direct : Addr)
      → parse_remote_ip lib remote ≡ some direct
      → is_trusted_proxy prefixes direct ≡ true
      → 0 < length values
      → client_ip lib prefixes remote [] values
        ≡ lib.addr_text (origin prefixes direct (parse_x_forwarded_for lib values))
  unfolding client_ip chain_of
  behind_proxy remote values direct at ok some_values = rw (at, client_ip, ok) (ground arith)

  chain_of_text :
      (client appended : Bytes) (values : List Bytes)
      → join values b',' ≡ client ++ (b',' ∷ appended)
      → parse_x_forwarded_for lib values
        ≡ parse_each
            (λ part. parse_forwarded_node lib (trim_space part))
            (split client b',' ++ split appended b',')
  unfolding parse_x_forwarded_for
  chain_of_text client appended values text = rw (text, split-append b',' client appended) refl

  -- Behind a trusted proxy and without a Forwarded header, if the X-Forwarded-For text is anything
  -- at all, a comma and then hops that parse and of which one is not trusted, the client's address
  -- is the last such hop, or, if the whole text does not parse, the proxy's: what stands before
  -- cannot choose another.
  pub client_ip_of_hops :
      (remote client appended : Bytes) (values : List Bytes) (direct hop : Addr) (chain : List Addr)
      → parse_remote_ip lib remote ≡ some direct
      → is_trusted_proxy prefixes direct ≡ true
      → 0 < length values
      → join values b',' ≡ client ++ (b',' ∷ appended)
      → hops lib appended ≡ some chain
      → last_without (is_trusted_proxy prefixes) chain ≡ some hop
      → (client_ip lib prefixes remote [] values ≡ lib.addr_text hop)
        ⊎ ((parse_x_forwarded_for lib values ≡ none)
            × (client_ip lib prefixes remote [] values ≡ lib.addr_text direct))
  client_ip_of_hops remote client appended values direct hop chain at ok some_values text good
        found =
      settles direct hop chain found (client_ip lib prefixes remote [] values)
        (parse_x_forwarded_for lib values) (behind_proxy remote values direct at ok some_values)
        (rw (chain_of_text client appended values text) (
          parse_each-append (λ part. parse_forwarded_node lib (trim_space part)) (split client b',')
            (split appended b',') chain good))
