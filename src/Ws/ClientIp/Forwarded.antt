-- ===== src/Ws/ClientIp/Forwarded.antt =====
-- The header that a proxy writes by RFC 7239, and what parseForwarded makes of it.
use mathlib.Core.List.{append_assoc}
use network_ultra_server.Prelude.{
  ℕ, suc, ◌-◌, ◌≡◌, refl, ap, sym, ◌∙◌, inl, inr, Bool, true, false, not, ◌&&◌, ◌||◌, List, [], ◌∷◌,
  ◌++◌, Option, none, some, arith, ltb, nat_eqb, if◌then◌else◌, length, get_or, Bool-cases,
  Option-cases, bytes_eq, length-append, take-append,
}
use network_ultra_server.Strings.{Bytes, has_prefix, space_width_back, ascii_space, space2, space3}
use network_ultra_server.Ws.ClientIp.{unescape, unquote_forwarded_value, after_byte, split_from}

abbrev quote_byte : ℕ
quote_byte = b'"'

abbrev pub printable : ℕ → Bool
printable c = not (ltb c 0x20 || nat_eqb c 0x7F)

abbrev pub Printable : Bytes → Type 0
Printable [] = Unit
Printable (c ∷ cs) = (printable c ≡ true) × Printable cs

-- A quoted string: quotes and backslashes get a backslash.
unfoldable pub escape : Bytes → Bytes
escape [] = []
escape (c ∷ cs) = if nat_eqb c b'"' || nat_eqb c b'\\' then b'\\' ∷ c ∷ escape cs else c ∷ escape cs

abbrev pub quote : Bytes → Bytes
quote s = b'"' ∷ (escape s ++ (b'"' ∷ []))

-- One hop's element.
abbrev pub element : Bytes → Bytes
element node = b'f' ∷ b'o' ∷ b'r' ∷ b'=' ∷ quote node

pub unescape-escape : (s : Bytes) → Printable s → unescape false (escape s) ≡ some s
unfolding unescape escape
unescape-escape [] p = refl
unescape-escape (c ∷ cs) (p, ps) = elim (Bool-cases (nat_eqb c b'"' || nat_eqb c b'\\')) [
  | inl y ↦ rw y (ground (arith, unescape-escape cs ps))
  | inr n ↦ rw n (ground (arith, unescape-escape cs ps))
]

get_or-last : (xs : Bytes) (q d : ℕ) → get_or (xs ++ (q ∷ [])) (length xs) d ≡ q
get_or-last [] q d = refl
get_or-last (x ∷ xs) q d = get_or-last xs q d

-- x
pub unquote-quote : (s : Bytes) → Printable s → unquote_forwarded_value (quote s) ≡ some s
unfolding unquote_forwarded_value has_prefix
unquote-quote s p =
    let e : get_or (escape s ++ (b'"' ∷ [])) (length (escape s)) 0 ≡ b'"' =
      get_or-last (escape s) b'"' 0 in
    let l : length (escape s ++ (b'"' ∷ [])) ≡ suc (length (escape s)) =
      length-append {0} (escape s) (b'"' ∷ []) ∙ omega arith in
    let n = length (escape s) in
    let below : suc (suc n) - 1 ≡ suc n = omega arith in
    let below2 : suc n - 1 ≡ n = omega arith in
    let long : ltb (suc (suc n)) 2 ≡ false = ground arith in
    rw (l, below, long, e, below2, take-append n (escape s) (b'"' ∷ []) refl) (unescape-escape s p)

abbrev pub prepend : Bytes → Option (Bytes × List Bytes) → Option (Bytes × List Bytes)
prepend p none = none
prepend p (some (part, parts)) = some (p ++ part, parts)

-- A byte that separates nothing belongs to the part.
pub split_from-keeps :
    (sep : ℕ) (quoted escaped q e : Bool) (c : ℕ) (cs : Bytes)
    → after_byte quoted escaped c ≡ (q, e)
    → (not escaped && (not quoted && (nat_eqb c sep && not (nat_eqb c b'"')))) ≡ false
    → split_from sep quoted escaped (c ∷ cs) ≡ prepend (c ∷ []) (split_from sep q e cs)
unfolding split_from
split_from-keeps sep quoted escaped q e c cs next inside =
    rw (split_from, next)
      (elim (Option-cases (split_from sep q e cs)) [
        | inl bad ↦ rw bad refl
        | inr (r, good) ↦ rw (good, inside) refl
      ])

prepend-prepend :
    (p q : Bytes) (o : Option (Bytes × List Bytes)) → prepend p (prepend q o) ≡ prepend (p ++ q) o
prepend-prepend p q none = refl
prepend-prepend p q (some (part, parts)) = ap (λ x. some (x, parts)) (sym (append_assoc p q part))

pub split_from-quoted :
    (sep : ℕ) (s rest : Bytes)
    → split_from sep true false (escape s ++ (b'"' ∷ rest))
      ≡ prepend (escape s ++ (b'"' ∷ [])) (split_from sep false false rest)
unfolding escape after_byte
split_from-quoted sep [] rest = split_from-keeps sep true false false false b'"' rest refl refl
split_from-quoted sep (c ∷ cs) rest = elim (Bool-cases (nat_eqb c b'"' || nat_eqb c b'\\')) [
  | inl y ↦
      rw
        (
          y,
          split_from-keeps sep true false true true b'\\' (c ∷ (escape cs ++ (b'"' ∷ rest))) refl
              refl,
          split_from-keeps sep true true true false c (escape cs ++ (b'"' ∷ rest)) refl refl,
          split_from-quoted sep cs rest,
        )
        (prepend-prepend (b'\\' ∷ []) (c ∷ [])
            (prepend (escape cs ++ (b'"' ∷ [])) (split_from sep false false rest))
          ∙ prepend-prepend (b'\\' ∷ c ∷ []) (escape cs ++ (b'"' ∷ []))
              (split_from sep false false rest))
  | inr n ↦
      rw
        (
          n,
          split_from-keeps sep true false true false c (escape cs ++ (b'"' ∷ rest)) (ground arith)
              refl,
          split_from-quoted sep cs rest,
        )
        (prepend-prepend (c ∷ []) (escape cs ++ (b'"' ∷ [])) (split_from sep false false rest))
]

pub space_width_back-quote : (s : Bytes) → space_width_back (b'"' ∷ s) ≡ 0
unfolding space_width_back ascii_space space2 space3
space_width_back-quote [] = refl
space_width_back-quote (b ∷ []) = ground arith
space_width_back-quote (b ∷ c ∷ _) = ground arith
