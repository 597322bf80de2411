-- ===== src/Ws/ClientIp.antt =====
-- internal/ws/client_ip.go: the address that a connection counts for. Texts are lists of bytes, and
-- netip.ParseAddr and Addr.String are parameters.
pub mod Forwarded
pub mod Walk
pub mod Quotes
pub mod Printed
mod Tests
use mathlib.Core.List.{reverse}
use network_ultra_server.Prelude.{
  ℕ, zero, suc, ◌-◌, ◌<◌, Bool, true, false, not, ◌&&◌, ◌||◌, List, [], ◌∷◌, ◌++◌, Option, none,
  some, ◌==◌, ltb, nat_eqb, if◌then◌else◌, length, drop, get_or, bytes_eq, slice,
}
use network_ultra_server.Strings.{
  Bytes, has_prefix, index_byte, contains_byte, cut, split, join, trim_space, trim_brackets,
  equal_fold,
}
use network_ultra_server.Net.{Addr, unmap, Prefix, contains, split_host_port, parse_uint16}

-- netip.ParseAddr and Addr.String.
pub record Addresses : Type 0 where
  pub parse_addr : Bytes → Option Addr
  pub addr_text : Addr → Bytes

unfoldable pub valid_port : Bytes → Bool
valid_port port = elim (parse_uint16 port) [ none ↦ false | some n ↦ ltb 0 n ]

unfoldable pub valid_optional_port : Bytes → Bool
valid_optional_port rest = rest == [] || (has_prefix rest (b':' ∷ []) && valid_port (drop 1 rest))

-- The loop of unquoteForwardedValue over what stands between the quotes; the flag says that a
-- backslash came before.
unfoldable pub unescape : Bool → Bytes → Option Bytes
unescape escaped [] = if escaped then none else some []
unescape escaped (c ∷ cs) =
    if not escaped && nat_eqb c b'\\'
    then unescape true cs
    else if not escaped && nat_eqb c b'"'
    then none
    else if ltb c 0x20 || nat_eqb c 0x7F
    then none
    else (elim (unescape false cs) [ none ↦ none | some out ↦ some (c ∷ out) ])

unfoldable pub unquote_forwarded_value : Bytes → Option Bytes
unquote_forwarded_value value =
    if not (has_prefix value (b'"' ∷ []))
    then if contains_byte value b'"' || contains_byte value b'\\' then none else some value
    else if ltb (length value) 2 || not (nat_eqb (get_or value (length value - 1) 0) b'"')
    then none
    else unescape false (slice 1 (length value - 1) value)

-- What a byte makes of the flags `quoted` and `escaped`.
unfoldable pub after_byte : Bool → Bool → ℕ → Bool × Bool
after_byte quoted escaped c =
    if escaped
    then (quoted, false)
    else if quoted && nat_eqb c b'\\'
    then (quoted, true)
    else if nat_eqb c b'"'
    then (not quoted, false)
    else (quoted, false)

-- The loop of splitOutsideQuotes: the rest of the part that it is in, and the parts behind.
unfoldable pub split_from : ℕ → Bool → Bool → Bytes → Option (Bytes × List Bytes)
split_from sep quoted escaped [] = if quoted || escaped then none else some ([], [])
split_from sep quoted escaped (c ∷ cs) =
    let (q, e) = after_byte quoted escaped c in
    elim (split_from sep q e cs) [
      | none ↦ none
      | some (part, parts) ↦
          if not escaped && (not quoted && (nat_eqb c sep && not (nat_eqb c b'"')))
          then if trim_space part == [] then none else some ([], trim_space part ∷ parts)
          else some (c ∷ part, parts)
    ]

unfoldable pub split_outside_quotes : Bytes → ℕ → Option (List Bytes)
split_outside_quotes value sep = elim (split_from sep false false value) [
  | none ↦ none
  | some (part, parts) ↦ if trim_space part == [] then none else some (trim_space part ∷ parts)
]

abbrev for_key : Bytes
for_key = b'f' ∷ b'o' ∷ b'r' ∷ []

abbrev unknown : Bytes
unknown = b'u' ∷ b'n' ∷ b'k' ∷ b'n' ∷ b'o' ∷ b'w' ∷ b'n' ∷ []

-- A loop that fails if one of its turns does.
unfoldable pub parse_each : (Bytes → Option Addr) → List Bytes → Option (List Addr)
parse_each parse [] = some []
parse_each parse (p ∷ ps) = elim (parse p) [
  | none ↦ none
  | some addr ↦ elim (parse_each parse ps) [ none ↦ none | some chain ↦ some (addr ∷ chain) ]
]

module _ (trusted_proxy_prefixes : List Prefix) where
  unfoldable pub contains_any : List Prefix → Addr → Bool
  contains_any [] a = false
  contains_any (p ∷ ps) a = if contains p a then true else contains_any ps a

  unfoldable pub is_trusted_proxy : Addr → Bool
  is_trusted_proxy a = contains_any trusted_proxy_prefixes (unmap a)

  -- `for i := len(chain) - 1; i >= 0; i--`, from the number of entries that are left.
  unfoldable pub walk : List Addr → ℕ → Option Addr
  walk chain zero = none
  walk chain (suc i) =
      let here = get_or chain i (record { ip = []; zone = [] }) in
      if not (is_trusted_proxy here) then some here else walk chain i

  unfoldable pub origin : Addr → Option (List Addr) → Addr
  origin direct none = direct
  origin direct (some []) = direct
  origin direct (some (first ∷ rest)) = elim (walk (first ∷ rest) (length (first ∷ rest))) [
    | some a ↦ a
    | none ↦ first
  ]

module _ (lib : Addresses) where
  -- `addr, err := netip.ParseAddr(text); err == nil && addr.Zone() == ""`, unmapped.
  unfoldable pub plain_addr : Bytes → Option Addr
  plain_addr text = elim (lib.parse_addr text) [
    | none ↦ none
    | some a ↦ if a.zone == [] then some (unmap a) else none
  ]

  unfoldable pub parse_remote_ip : Bytes → Option Addr
  parse_remote_ip remote = elim (split_host_port remote) [
    | none ↦ plain_addr (trim_brackets remote)
    | some (host, _) ↦ plain_addr (trim_brackets host)
  ]

  -- The end of parseForwardedNode, for what is no address by itself.
  unfoldable pub parse_with_port : Bytes → Option Addr
  parse_with_port text =
      if has_prefix text (b'[' ∷ [])
      then (elim (index_byte text b']') [
        | none ↦ none
        | some end ↦
            if valid_optional_port (drop (suc end) text)
            then plain_addr (slice 1 end text)
            else none
      ])
      else (elim (split_host_port text) [
        | none ↦ none
        | some (host, port) ↦ if valid_port port then plain_addr host else none
      ])

  unfoldable pub parse_forwarded_node : Bytes → Option Addr
  parse_forwarded_node raw =
      let text = trim_space raw in
      if text == []
        || (equal_fold text unknown || (has_prefix text (b'_' ∷ []) || contains_byte text b'%'))
      then none
      else (elim (plain_addr text) [ some a ↦ some a | none ↦ parse_with_port text ])

  -- The loop over the parameters of one element.
  unfoldable pub find_for : Option Addr → List Bytes → Option Addr
  find_for found [] = found
  find_for found (param ∷ rest) = elim (cut param b'=') [
    | none ↦ none
    | some (key, value) ↦
        if trim_space key == []
        then none
        else if not (equal_fold (trim_space key) for_key)
        then find_for found rest
        else (elim found [
          | some _ ↦ none
          | none ↦ elim (unquote_forwarded_value (trim_space value)) [
            | none ↦ none
            | some text ↦ elim (parse_forwarded_node text) [
              | none ↦ none
              | some addr ↦ find_for (some addr) rest
            ]
          ]
        ])
  ]

  unfoldable pub parse_element : Bytes → Option Addr
  parse_element element = elim (split_outside_quotes element b';') [
    | none ↦ none
    | some params ↦ find_for none params
  ]

  unfoldable pub parse_forwarded : List Bytes → Option (List Addr)
  parse_forwarded values = elim (split_outside_quotes (join values b',') b',') [
    | none ↦ none
    | some elements ↦ parse_each parse_element elements
  ]

  unfoldable pub parse_x_forwarded_for : List Bytes → Option (List Addr)
  parse_x_forwarded_for values =
      parse_each (λ part. parse_forwarded_node (trim_space part)) (split (join values b',') b',')

  -- The chain of the headers' values.
  unfoldable pub chain_of : List Bytes → List Bytes → Option (List Addr)
  chain_of forwarded x_forwarded_for =
      if ltb 0 (length forwarded)
      then parse_forwarded forwarded
      else if ltb 0 (length x_forwarded_for)
      then parse_x_forwarded_for x_forwarded_for
      else none

  unfoldable pub client_ip : List Prefix → Bytes → List Bytes → List Bytes → Bytes
  client_ip prefixes remote forwarded x_forwarded_for = elim (parse_remote_ip remote) [
    | none ↦ remote
    | some direct ↦
        if not (is_trusted_proxy prefixes direct)
        then lib.addr_text direct
        else lib.addr_text (origin prefixes direct (chain_of forwarded x_forwarded_for))
  ]
