-- ===== src/Ws/ClientIp/Printed.antt =====
-- Reading back what a proxy has written into the header.
use mathlib.Core.List.{reverse, reverse-append, reverse-reverse, append-nil, append_assoc}
use network_ultra_server.Prelude.{
  All, ℕ, ◌≡◌, ◌<◌, refl, ap, sym, ◌∙◌, inl, inr, true, false, List, [], ◌∷◌, ◌++◌, map, none, some,
  arith, nat_eqb, Option-cases, bytes_eq,
}
use network_ultra_server.Strings.{
  Bytes, index_byte, cut, join, trim_space, drop_spaces, space_width, space_width_back, ascii_space,
  space2, space3, equal_fold, lower,
}
use network_ultra_server.Net.{Addr}
use network_ultra_server.Ws.ClientIp.{
  Addresses, split_from, split_outside_quotes, parse_forwarded_node, find_for, parse_element,
  parse_each, parse_forwarded, after_byte, for_key,
}
use network_ultra_server.Ws.ClientIp.Forwarded.{
  Printable, escape, quote, element, prepend, unquote-quote, split_from-keeps, split_from-quoted,
  space_width_back-quote,
}

drop_spaces-none : (width : Bytes → ℕ) (s : Bytes) → width s ≡ 0 → drop_spaces width 0 s ≡ s
unfolding drop_spaces
drop_spaces-none width [] h = refl
drop_spaces-none width (c ∷ cs) h = rw (drop_spaces, h) refl

trim_space-none :
    (s : Bytes) → space_width s ≡ 0 → space_width_back (reverse s) ≡ 0 → trim_space s ≡ s
unfolding trim_space
trim_space-none s front back =
    rw (drop_spaces-none space_width s front, drop_spaces-none space_width_back (reverse s) back)
      (reverse-reverse s)

space_width-quote : (s : Bytes) → space_width (b'"' ∷ s) ≡ 0
unfolding space_width ascii_space space2 space3
space_width-quote [] = refl
space_width-quote (b ∷ []) = refl
space_width-quote (b ∷ c ∷ _) = refl

-- What ends in a quote.
quoted_back : (s : Bytes) → space_width_back (reverse (s ++ (b'"' ∷ []))) ≡ 0
quoted_back s =
    ap space_width_back (reverse-append s (b'"' ∷ [])) ∙ space_width_back-quote (reverse s)

trim_space-quote : (s : Bytes) → trim_space (quote s) ≡ quote s
trim_space-quote s =
    trim_space-none (quote s) (space_width-quote (escape s ++ (b'"' ∷ [])))
      (quoted_back (b'"' ∷ escape s))

trim_space-element : (s : Bytes) → trim_space (element s) ≡ element s
unfolding space_width ascii_space space2 space3
trim_space-element s =
    trim_space-none (element s) refl (quoted_back (b'f' ∷ b'o' ∷ b'r' ∷ b'=' ∷ b'"' ∷ escape s))

-- An element is within one part, whether it is split at commas or at semicolons.
split_from-element :
    (sep : ℕ) (s rest : Bytes)
    → sep < b'='
    → nat_eqb b'"' sep ≡ false
    → split_from sep false false (element s ++ rest)
      ≡ prepend (element s) (split_from sep false false rest)
unfolding after_byte
split_from-element sep s rest small no_quote =
    let tail = quote s ++ rest in
    rw
      (
        split_from-keeps sep false false false false b'f' (b'o' ∷ b'r' ∷ b'=' ∷ tail) refl
            (ground arith),
        split_from-keeps sep false false false false b'o' (b'r' ∷ b'=' ∷ tail) refl (ground arith),
        split_from-keeps sep false false false false b'r' (b'=' ∷ tail) refl (ground arith),
        split_from-keeps sep false false false false b'=' tail refl (ground arith),
        split_from-keeps sep false false true false b'"' ((escape s ++ (b'"' ∷ [])) ++ rest) refl
            (ground arith),
        append_assoc (escape s) (b'"' ∷ []) rest,
        split_from-quoted sep s rest,
      )
      (elim (Option-cases (split_from sep false false rest)) [
        | inl bad ↦ rw bad refl
        | inr (r, good) ↦ rw good refl
      ])

split_from-last :
    (sep : ℕ) (s : Bytes)
    → sep < b'='
    → nat_eqb b'"' sep ≡ false
    → split_from sep false false (element s) ≡ some (element s, [])
unfolding split_from
split_from-last sep s small no_quote =
    ap (split_from sep false false) (sym (append-nil (element s)))
    ∙ split_from-element sep s [] small no_quote
    ∙ ap (λ x. some (x, [])) (append-nil (element s))

-- The header's values, one for each hop that is written.
abbrev pub elements : List (Bytes × Addr) → List Bytes
elements hops = map (λ hop. element hop.0) hops

split_from-separator :
    (s text : Bytes) (parts : List Bytes)
    → split_from b',' false false text ≡ some (element s, parts)
    → split_from b',' false false (b',' ∷ text) ≡ some ([], element s ∷ parts)
unfolding split_from after_byte
split_from-separator s text parts e = rw (split_from, e, trim_space-element s) refl

split_from-join :
    (first : Bytes × Addr) (hops : List (Bytes × Addr))
    → split_from b',' false false (join (elements (first ∷ hops)) b',')
      ≡ some (element first.0, elements hops)
unfolding join
split_from-join first [] = split_from-last b',' first.0 (omega arith) refl
split_from-join first (next ∷ hops) =
    split_from-element b',' first.0 (b',' ∷ join (elements (next ∷ hops)) b',') (omega arith) refl
    ∙ ap (prepend (element first.0)) (
        split_from-separator next.0 (join (elements (next ∷ hops)) b',') (elements hops)
          (split_from-join next hops))
    ∙ ap (λ x. some (x, elements (next ∷ hops))) (append-nil (element first.0))

trim_for : trim_space for_key ≡ for_key
unfolding trim_space drop_spaces space_width space_width_back ascii_space space2 space3
trim_for = refl

module _ (lib : Addresses) where
  find_for-element :
      (s : Bytes) (a : Addr)
      → Printable s
      → parse_forwarded_node lib s ≡ some a
      → find_for lib none (element s ∷ []) ≡ some a
  unfolding find_for cut index_byte equal_fold lower
  find_for-element s a p good =
      rw (find_for, trim_for, trim_space-quote s, unquote-quote s p, good) refl

  parse_element-element :
      (s : Bytes) (a : Addr)
      → Printable s
      → parse_forwarded_node lib s ≡ some a
      → parse_element lib (element s) ≡ some a
  unfolding parse_element split_outside_quotes
  parse_element-element s a p good =
      rw (parse_element, split_from-last b';' s (omega arith) refl, trim_space-element s)
        (find_for-element s a p good)

  parse_each-elements :
      (hops : List (Bytes × Addr))
      → All (λ hop. Printable hop.0 × (parse_forwarded_node lib hop.0 ≡ some hop.1)) hops
      → parse_each (parse_element lib) (elements hops) ≡ some (map (λ hop. hop.1) hops)
  unfolding parse_each
  parse_each-elements [] all = refl
  parse_each-elements ((s, a) ∷ hops) ((p, good), all) =
      rw (parse_each, parse_element-element s a p good, parse_each-elements hops all) refl

  -- A Forwarded header with one value for each hop, whose node stands in quotes with its quotes
  -- and backslashes escaped, is read back as the hops' addresses, in their order, if each node is
  -- printable and is read as its address.
  pub parse_forwarded-element :
      (first : Bytes × Addr) (hops : List (Bytes × Addr))
      → All (λ hop. Printable hop.0 × (parse_forwarded_node lib hop.0 ≡ some hop.1)) (first ∷ hops)
      → parse_forwarded lib (elements (first ∷ hops)) ≡ some (map (λ hop. hop.1) (first ∷ hops))
  unfolding parse_forwarded split_outside_quotes
  parse_forwarded-element first hops all =
      rw (parse_forwarded, split_from-join first hops, trim_space-element first.0)
        (parse_each-elements (first ∷ hops) all)
