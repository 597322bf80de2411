-- ===== src/Net/HostPort.antt =====
-- Splitting and joining a host and a port.
use mathlib.Core.List.{append_assoc}
use network_ultra_server.Prelude.{
  ℕ, zero, suc, ◌-◌, ◌≡◌, refl, ap, sym, subst, ◌∙◌, inl, inr, true, false, ◌||◌, [], ◌∷◌, ◌++◌,
  some, arith, nat_eqb, length, take, drop, slice, get_or, Bool-cases, Option-cases, take-append,
  drop-append, length-append,
}
use network_ultra_server.Strings.{Bytes, index_byte, last_index_byte, contains_byte}
use network_ultra_server.Strings.Positions.{
  Without, Without-append, Without-take, contains_byte-false, index_byte_found,
  last_index_byte_found, contains_byte-Without, take-Without,
}
use network_ultra_server.Net.{split_host_port, split_at, join_host_port}

-- A host and a port without brackets, and no colon in the port.
pub record IsPlain (host port : Bytes) : Type 0 where
  pub no_open : Without b'[' host
  pub no_close : Without b']' host
  pub port_open : Without b'[' port
  pub port_close : Without b']' port
  pub port_colon : Without b':' port

nat_eqb_refl : (n : ℕ) → nat_eqb n n ≡ true
nat_eqb_refl n = ground arith

first_byte :
    (port host : Bytes)
    → Without b'[' host
    → nat_eqb (get_or (host ++ (b':' ∷ port)) 0 0) b'[' ≡ false
first_byte port [] p = refl
first_byte port (x ∷ host) (e, p) = e

module _ (host port : Bytes) (ok : IsPlain host port) where
  abbrev rest : Bytes
  rest = host ++ (b']' ∷ b':' ∷ port)

  rest_at_colon : rest ≡ (host ++ (b']' ∷ [])) ++ (b':' ∷ port)
  rest_at_colon = sym (append_assoc host (b']' ∷ []) (b':' ∷ port))

  rest_at_port : rest ≡ (host ++ (b']' ∷ b':' ∷ [])) ++ port
  rest_at_port = sym (append_assoc host (b']' ∷ b':' ∷ []) port)

  colon : last_index_byte (b'[' ∷ rest) b':' ≡ some (suc (suc (length host)))
  colon =
      ap (λ r. last_index_byte (b'[' ∷ r) b':') rest_at_colon
      ∙ last_index_byte_found b':' (b'[' ∷ (host ++ (b']' ∷ []))) port ok.port_colon
      ∙ ap (λ n. some (suc n)) (length-append host (b']' ∷ []) ∙ omega arith)

  bracket : index_byte (b'[' ∷ rest) b']' ≡ some (suc (length host))
  bracket = index_byte_found b']' (b'[' ∷ host) (b':' ∷ port) (refl, ok.no_close)

  behind_colon : drop (suc (length host)) rest ≡ b':' ∷ port
  behind_colon =
      ap (drop (suc (length host))) rest_at_colon
      ∙ drop-append (suc (length host)) (host ++ (b']' ∷ [])) (b':' ∷ port)
          (length-append host (b']' ∷ []) ∙ omega arith)

  the_port : drop (suc (suc (length host))) rest ≡ port
  the_port =
      ap (drop (suc (suc (length host)))) rest_at_port
      ∙ drop-append (suc (suc (length host))) (host ++ (b']' ∷ b':' ∷ [])) port
          (length-append host (b']' ∷ b':' ∷ []) ∙ omega arith)

  the_host : slice 1 (suc (length host)) (b'[' ∷ rest) ≡ host
  the_host =
      let e : suc (length host) - 1 ≡ length host = omega arith in
      ap (λ n. take n rest) e ∙ take-append (length host) host (b']' ∷ b':' ∷ port) refl

  none_open : contains_byte rest b'[' ≡ false
  none_open =
      contains_byte-false b'[' rest
        (Without-append b'[' host (b']' ∷ b':' ∷ port) ok.no_open (refl, (refl, ok.port_open)))

  none_close : contains_byte (b':' ∷ port) b']' ≡ false
  none_close = contains_byte-false b']' (b':' ∷ port) (refl, ok.port_close)

  split_bracketed : split_host_port (b'[' ∷ rest) ≡ some (host, port)
  unfolding split_host_port split_at
  split_bracketed =
      rw
        (
          split_host_port,
          colon,
          bracket,
          nat_eqb_refl (suc (suc (length host))),
          the_host,
          none_open,
          behind_colon,
          none_close,
          the_port,
        )
        refl

  bare_port : drop (suc (length host)) (host ++ (b':' ∷ port)) ≡ port
  bare_port =
      ap (drop (suc (length host))) (sym (append_assoc host (b':' ∷ []) port))
      ∙ drop-append (suc (length host)) (host ++ (b':' ∷ [])) port
          (length-append host (b':' ∷ []) ∙ omega arith)

  split_bare :
      contains_byte host b':' ≡ false → split_host_port (host ++ (b':' ∷ port)) ≡ some (host, port)
  unfolding split_host_port split_at
  split_bare no_colon =
      let no_bracket = first_byte port host ok.no_open in
      let opens =
        contains_byte-false b'[' (host ++ (b':' ∷ port))
          (Without-append b'[' host (b':' ∷ port) ok.no_open (refl, ok.port_open)) in
      let closes =
        contains_byte-false b']' (host ++ (b':' ∷ port))
          (Without-append b']' host (b':' ∷ port) ok.no_close (refl, ok.port_close)) in
      rw
        (
          split_host_port,
          last_index_byte_found b':' host port ok.port_colon,
          no_bracket,
          take-append (length host) host (b':' ∷ port) refl,
          no_colon,
          opens,
          closes,
        )
        (ap (λ x. some (host, x)) bare_port)

  -- x
  pub split-join_host_port : split_host_port (join_host_port host port) ≡ some (host, port)
  unfolding join_host_port
  split-join_host_port = elim (Bool-cases (contains_byte host b':' || contains_byte host b'%')) [
    | inl y ↦ rw y split_bracketed
    | inr n ↦ rw n (split_bare (ground arith))
  ]

split_at_lem :
    (s host' host port : Bytes) (i j k : ℕ)
    → split_at s i j k host' ≡ some (host, port)
    → (host' ≡ host)
      × (contains_byte (drop j s) b'[' ≡ false)
      × (contains_byte (drop k s) b']' ≡ false)
unfolding split_at
split_at_lem s host' host port i j k h = (ground arith, ground arith, ground arith)

drop-Without : (c n : ℕ) (s : Bytes) → Without c (take n s) → Without c (take (n - 1) (drop 1 s))
drop-Without c zero s p = tt
drop-Without c (suc n) [] p = Without-take c (suc n - 1) [] tt
drop-Without c (suc n) (x ∷ s) (e, p) =
    let down : n ≡ suc n - 1 = omega arith in subst (λ k. Without c (take k s)) down p

-- What SplitHostPort returns as the host has no brackets.
pub split_host_port-Without :
    (s host port : Bytes)
    → split_host_port s ≡ some (host, port)
    → Without b'[' host × Without b']' host
unfolding split_host_port
split_host_port-Without s host port h = elim (Option-cases (last_index_byte s b':')) [
  | inl none_at ↦ absurd (ground arith)
  | inr (i, at) ↦ elim (Bool-cases (nat_eqb (get_or s 0 0) b'[')) [
    | inl square ↦ elim (Option-cases (index_byte s b']')) [
      | inl bad ↦ absurd (ground arith)
      | inr (end, closed) ↦
          let (same, opens, closes) =
            split_at_lem s (slice 1 end s) host port i 1 (suc end) (ground arith) in
          subst (λ x. Without b'[' x × Without b']' x) same
            (
              Without-take b'[' (end - 1) (drop 1 s) (contains_byte-Without b'[' (drop 1 s) opens),
              drop-Without b']' end s (take-Without b']' end s closed),
            )
    ]
    | inr bare ↦
        let (same, opens, closes) = split_at_lem s (take i s) host port i 0 0 (ground arith) in
        subst (λ x. Without b'[' x × Without b']' x) same
          (
            Without-take b'[' i s (contains_byte-Without b'[' s opens),
            Without-take b']' i s (contains_byte-Without b']' s closes),
          )
  ]
]
