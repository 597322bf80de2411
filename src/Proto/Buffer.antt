-- ===== src/Proto/Buffer.antt =====
-- Byte buffers as lists of bytes: Go's slices of a reused backing array, and little-endian words.
pub mod Writes
use network_ultra_server.Prelude.{
  ℕ, ◌+◌, ◌-◌, ◌*◌, ◌/◌, ◌%◌, ◌≤◌, ◌<◌, ◌≡◌, refl, List, [], ◌∷◌, ◌++◌, arith, ltb, if◌then◌else◌,
  length, take, drop, replicate, get_or, length-replicate, length-take,
}

-- `if cap(dst) < total { make } else { dst[:total] }`; `dst` is the whole backing array.
unfoldable pub resize : ℕ → List ℕ → List ℕ
resize total dst = if ltb (length dst) total then replicate total 0 else take total dst

pub length-resize : (total : ℕ) (dst : List ℕ) → length (resize total dst) ≡ total
unfolding resize
length-resize total dst =
    ground (arith, length-replicate {A = ℕ} total 0, length-take {A = ℕ} total dst)

-- binary.LittleEndian.PutUint16 and Uint16
unfoldable pub put_u16 : ℕ → List ℕ
put_u16 v = v % 256 ∷ v / 256 % 256 ∷ []

unfoldable pub get_u16 : List ℕ → ℕ
get_u16 bs = get_or bs 0 0 + 256 * get_or bs 1 0

pub get_u16-put_u16 : (v : ℕ) (rest : List ℕ) → v < 65536 → get_u16 (put_u16 v ++ rest) ≡ v
unfolding put_u16 get_u16
get_u16-put_u16 v rest h = omega arith

-- The other way round, for two bytes.
pub put_u16-get_u16 : (a b : ℕ) → a < 256 → b < 256 → put_u16 (get_u16 (a ∷ b ∷ [])) ≡ a ∷ b ∷ []
unfolding put_u16 get_u16
put_u16-get_u16 a b ha hb = ground arith

-- Every element is a byte.
abbrev pub Bytes : List ℕ → Type 0
Bytes [] = Unit
Bytes (x ∷ xs) = (x < 256) × Bytes xs
