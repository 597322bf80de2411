-- ===== src/Ws/Labels.antt =====
-- The input checks of internal/ws/dispatch.go: names by their code points, and lists of UUIDs.
-- A text that encoding/json gave is valid UTF-8, as every String here is.
use Prim.Native.Char.{code}
use Prim.Native.String.{String}
use network_ultra_server.Prelude.{
  ℕ, ◌+◌, ◌/◌, ◌%◌, Bool, true, false, ◌&&◌, ◌||◌, not, List, [], ◌∷◌, ◌++◌, Option, none, some,
  nat_eqb, ltb, leb, if◌then◌else◌, length, bytes_eq, ◌≡◌, ◌⊎◌, inl, inr, refl,
}
use network_ultra_server.Prelude.Maps.{Map, insert, has}
use network_ultra_server.Room.State.{Uuid}

abbrev pub max_peers_per_room : ℕ
max_peers_per_room = 8

abbrev pub max_username_runes : ℕ
max_username_runes = 32

abbrev pub max_room_name_runes : ℕ
max_room_name_runes = 64

-- Go's `range` over a string.
unfoldable pub runes : String → List ℕ
runes String.[] = []
runes (String.◌∷◌ c s) = code c ∷ runes s

utf8_rune : ℕ → List ℕ
utf8_rune c =
    if ltb c 128
    then c ∷ []
    else if ltb c 2048
    then (192 + c / 64) ∷ (128 + c % 64) ∷ []
    else if ltb c 65536
    then (224 + c / 4096) ∷ (128 + c / 64 % 64) ∷ (128 + c % 64) ∷ []
    else (240 + c / 262144) ∷ (128 + c / 4096 % 64) ∷ (128 + c / 64 % 64) ∷ (128 + c % 64) ∷ []

utf8 : List ℕ → List ℕ
unfolding utf8_rune
utf8 [] = []
utf8 (c ∷ cs) = utf8_rune c ++ utf8 cs

-- `[]byte(s)`
unfoldable pub bytes_of : String → List ℕ
unfolding utf8 runes
bytes_of s = utf8 (runes s)

-- unicode.IsControl
abbrev pub is_control : ℕ → Bool
is_control c = ltb c 32 || (leb 127 c && ltb c 160)

-- unicode.IsSpace
unfoldable pub is_space : ℕ → Bool
is_space c =
    (leb 9 c && leb c 13)
    || nat_eqb c 32
    || nat_eqb c 133
    || nat_eqb c 160
    || nat_eqb c 5760
    || (leb 8192 c && leb c 8202)
    || nat_eqb c 8232
    || nat_eqb c 8233
    || nat_eqb c 8239
    || nat_eqb c 8287
    || nat_eqb c 12288

trim_left : String → String
unfolding is_space
trim_left String.[] = String.[]
trim_left (String.◌∷◌ c s) = if is_space (code c) then trim_left s else String.◌∷◌ c s

is_blank : String → Bool
is_blank String.[] = true
is_blank (String.◌∷◌ c s) = false

trim_right : String → String
unfolding is_space is_blank
trim_right String.[] = String.[]
trim_right (String.◌∷◌ c s) =
    let rest = trim_right s in
    if is_blank rest && is_space (code c) then String.[] else String.◌∷◌ c rest

-- strings.TrimSpace
unfoldable pub trim_space : String → String
unfolding trim_left trim_right
trim_space s = trim_right (trim_left s)

unfoldable pub has_control : List ℕ → Bool
has_control [] = false
has_control (c ∷ cs) = is_control c || has_control cs

unfoldable pub valid_human_label : String → ℕ → Bool
valid_human_label value max_runes =
    not (has_control (runes value))
    && (leb 1 (length (runes (trim_space value)))
        && leb (length (runes (trim_space value))) max_runes)

abbrev pub valid_username : String → Bool
valid_username u = valid_human_label u max_username_runes

abbrev pub valid_room_name : String → Bool
valid_room_name name = valid_human_label name max_room_name_runes

-- Why a list of sources is refused.
pub data IdsError : Type 0 where
  too_many invalid duplicate : IdsError

pub data Ids : Type 0 where
  ids : List Uuid → Ids
  refused : IdsError → Ids

pub Ids-cases :
    (r : Ids) → ((found : List Uuid) × (r ≡ Ids.ids found)) ⊎ ((e : IdsError) × (r ≡ Ids.refused e))
Ids-cases (Ids.ids found) = inl (found, refl)
Ids-cases (Ids.refused e) = inr (e, refl)

cons_id : Uuid → Ids → Ids
cons_id id (Ids.ids rest) = Ids.ids (id ∷ rest)
cons_id id (Ids.refused e) = Ids.refused e

-- uuid.Parse is an argument.
module _ (parse : String → Option Uuid) where
  -- The loop, with the identifiers that it has seen.
  unfoldable pub parse_ids : List String → Map Uuid (Unit {0}) → Ids
  unfolding cons_id
  parse_ids [] seen = Ids.ids []
  parse_ids (text ∷ texts) seen = elim (parse text) [
    | none ↦ Ids.refused IdsError.invalid
    | some id ↦
        let rest = parse_ids texts (insert id tt seen) in
        if has id seen then Ids.refused IdsError.duplicate else cons_id id rest
  ]

  unfoldable pub parse_subscription_ids : List String → Ids
  parse_subscription_ids raw =
      if ltb max_peers_per_room (length raw)
      then Ids.refused IdsError.too_many
      else parse_ids raw []
