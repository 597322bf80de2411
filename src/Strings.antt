-- ===== src/Strings.antt =====
-- What the sources use of the packages strings, strconv and net, on texts as lists of bytes.
pub mod Lemmas
pub mod Positions
use mathlib.Core.List.{reverse}
use network_ultra_server.Prelude.{
  ℕ, zero, suc, ◌+◌, ◌-◌, ◌*◌, ◌/◌, ◌%◌, ◌^◌, Bool, true, false, not, ◌&&◌, ◌||◌, List, [], ◌∷◌,
  ◌++◌, Option, none, some, ◌==◌, ltb, leb, nat_eqb, if◌then◌else◌, length, take, drop, get_or,
  bytes_eq,
}

abbrev pub Bytes : Type 0
Bytes = List ℕ

unfoldable pub has_prefix : Bytes → Bytes → Bool
has_prefix s [] = true
has_prefix [] (p ∷ ps) = false
has_prefix (c ∷ cs) (p ∷ ps) = nat_eqb c p && has_prefix cs ps

-- strings.IndexByte, with none for -1.
unfoldable pub index_byte : Bytes → ℕ → Option ℕ
index_byte [] c = none
index_byte (x ∷ xs) c =
    let rest = index_byte xs c in
    if nat_eqb x c then some 0 else (elim rest [ none ↦ none | some i ↦ some (suc i) ])

unfoldable pub last_index_byte : Bytes → ℕ → Option ℕ
last_index_byte [] c = none
last_index_byte (x ∷ xs) c = elim (last_index_byte xs c) [
  | some i ↦ some (suc i)
  | none ↦ if nat_eqb x c then some 0 else none
]

unfoldable pub contains_byte : Bytes → ℕ → Bool
contains_byte s c = elim (index_byte s c) [ none ↦ false | some _ ↦ true ]

-- strings.Cut with a separator of one byte.
unfoldable pub cut : Bytes → ℕ → Option (Bytes × Bytes)
cut s sep = elim (index_byte s sep) [ none ↦ none | some i ↦ some (take i s, drop (suc i) s) ]

-- `strings.Split(s, sep)` with a separator of one byte: the first part, and the others.
unfoldable pub split_first : Bytes → ℕ → Bytes × List Bytes
split_first [] sep = ([], [])
split_first (c ∷ cs) sep =
    let (part, parts) = split_first cs sep in
    if nat_eqb c sep then ([], part ∷ parts) else (c ∷ part, parts)

unfoldable pub split : Bytes → ℕ → List Bytes
split s sep = let (part, parts) = split_first s sep in part ∷ parts

-- `strings.Join(parts, sep)` with a separator of one byte.
unfoldable pub join : List Bytes → ℕ → Bytes
join [] sep = []
join (p ∷ []) sep = p
join (p ∷ q ∷ rest) sep = p ++ (sep ∷ join (q ∷ rest) sep)

-- The bytes of the space that the text starts with, if it starts with one: one of ASCII, or the
-- encoding of another space of Unicode.
unfoldable pub ascii_space : ℕ → Bool
ascii_space c = nat_eqb c 32 || (leb 9 c && leb c 13)

-- U+0085 and U+00A0.
unfoldable pub space2 : ℕ → ℕ → Bool
space2 a b = nat_eqb a 0xC2 && (nat_eqb b 0x85 || nat_eqb b 0xA0)

-- U+1680, U+2000 to U+200A, U+2028, U+2029, U+202F, U+205F and U+3000.
unfoldable pub space3 : ℕ → ℕ → ℕ → Bool
space3 a b c =
    (nat_eqb a 0xE1 && (nat_eqb b 0x9A && nat_eqb c 0x80))
    || ((nat_eqb a 0xE2
          && (nat_eqb b 0x80
              && ((leb 0x80 c && leb c 0x8A)
                  || (nat_eqb c 0xA8 || (nat_eqb c 0xA9 || nat_eqb c 0xAF)))))
        || ((nat_eqb a 0xE2 && (nat_eqb b 0x81 && nat_eqb c 0x9F))
            || (nat_eqb a 0xE3 && (nat_eqb b 0x80 && nat_eqb c 0x80))))

unfoldable pub space_width : Bytes → ℕ
space_width [] = 0
space_width (a ∷ []) = if ascii_space a then 1 else 0
space_width (a ∷ b ∷ []) = if ascii_space a then 1 else if space2 a b then 2 else 0
space_width (a ∷ b ∷ c ∷ _) =
    if ascii_space a then 1 else if space2 a b then 2 else if space3 a b c then 3 else 0

-- The same for a text read backwards.
unfoldable pub space_width_back : Bytes → ℕ
space_width_back [] = 0
space_width_back (a ∷ []) = if ascii_space a then 1 else 0
space_width_back (a ∷ b ∷ []) = if ascii_space a then 1 else if space2 b a then 2 else 0
space_width_back (a ∷ b ∷ c ∷ _) =
    if ascii_space a then 1 else if space2 b a then 2 else if space3 c b a then 3 else 0

-- Drops as many bytes as are still to go of the space that was found, and then all further spaces.
unfoldable pub drop_spaces : (Bytes → ℕ) → ℕ → Bytes → Bytes
drop_spaces width n [] = []
drop_spaces width (suc n) (c ∷ cs) = drop_spaces width n cs
drop_spaces width zero (c ∷ cs) = elim (width (c ∷ cs)) [
  | zero ↦ c ∷ cs
  | suc n ↦ drop_spaces width n cs
]

-- strings.TrimSpace
unfoldable pub trim_space : Bytes → Bytes
trim_space s = reverse (drop_spaces space_width_back 0 (reverse (drop_spaces space_width 0 s)))

-- `strings.Trim(s, "[]")`
unfoldable pub drop_brackets : Bytes → Bytes
drop_brackets [] = []
drop_brackets (c ∷ cs) =
    let rest = drop_brackets cs in if nat_eqb c b'[' || nat_eqb c b']' then rest else c ∷ cs

unfoldable pub trim_brackets : Bytes → Bytes
trim_brackets s = reverse (drop_brackets (reverse (drop_brackets s)))

unfoldable pub lower : ℕ → ℕ
lower c = if leb b'A' c && leb c b'Z' then c + 32 else c

-- `strings.EqualFold(s, t)` for a `t` of small letters of ASCII: of these, `k` and `s` have another
-- letter that folds to them, the Kelvin sign and the long s.
unfoldable pub equal_fold : Bytes → Bytes → Bool
equal_fold [] [] = true
equal_fold (x ∷ xs) [] = false
equal_fold s (t ∷ ts) = elim s [
  | [] ↦ false
  | x ∷ xs ↦
      if nat_eqb (lower x) t
      then equal_fold xs ts
      else if nat_eqb t b'k' && has_prefix (x ∷ xs) (0xE2 ∷ 0x84 ∷ 0xAA ∷ [])
      then equal_fold (drop 2 xs) ts
      else if nat_eqb t b's' && has_prefix (x ∷ xs) (0xC5 ∷ 0xBF ∷ [])
      then equal_fold (drop 1 xs) ts
      else false
]

abbrev is_digit : ℕ → Bool
is_digit c = leb b'0' c && leb c b'9'

-- The number that the digits read, behind what was read before them.
unfoldable pub digits : ℕ → Bytes → Option ℕ
digits n [] = some n
digits n (c ∷ cs) = if is_digit c then digits (n * 10 + (c - b'0')) cs else none

-- Go's int; `negsuc n` is -(n + 1).
pub data ℤ : Type 0 where
  pos negsuc : ℕ → ℤ

abbrev pub is_positive : ℤ → Bool
is_positive (pos n) = ltb 0 n
is_positive (negsuc n) = false

abbrev negate : ℕ → ℤ
negate zero = pos 0
negate (suc n) = negsuc n

unfoldable pub unsigned : Bytes → Option ℕ
unsigned [] = none
unsigned (c ∷ cs) = digits 0 (c ∷ cs)

-- strconv.Atoi, with none for its errors.
unfoldable pub atoi : Bytes → Option ℤ
atoi [] = none
atoi (c ∷ cs) =
    if nat_eqb c b'-'
    then (elim (unsigned cs) [
      | none ↦ none
      | some n ↦ if leb n (2 ^ 63) then some (negate n) else none
    ])
    else (elim (unsigned (if nat_eqb c b'+' then cs else c ∷ cs)) [
      | none ↦ none
      | some n ↦ if ltb n (2 ^ 63) then some (pos n) else none
    ])

unfoldable pub digits_of : ℕ → ℕ → Bytes
digits_of zero n = []
digits_of (suc fuel) n =
    if ltb n 10 then (b'0' + n) ∷ [] else digits_of fuel (n / 10) ++ ((b'0' + n % 10) ∷ [])

-- strconv.Itoa, of a number of at most twenty digits, which any of 64 bits is.
unfoldable pub itoa : ℕ → Bytes
itoa n = digits_of 20 n
