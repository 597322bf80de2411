-- ===== src/Strings/Positions.antt =====
-- Which bytes a text has, and where.
use network_ultra_server.Prelude.{
  All, ◌≢◌, ◌==◌, ==_iff, bytes_eq, ℕ, zero, suc, ◌/◌, ◌≡◌, ◌<◌, refl, inl, inr, true, false, [],
  ◌∷◌, ◌++◌, none, some, arith, ltb, nat_eqb, length, take, Bool-cases,
}
use network_ultra_server.Strings.{Bytes, index_byte, last_index_byte, contains_byte, digits_of}

pub not_empty : (s : Bytes) → s ≢ [] → (s == []) ≡ false
not_empty s h = elim (Bool-cases (s == [])) [ inl y ↦ absurd (h ((==_iff s []).0 y)) | inr n ↦ n ]

abbrev pub Without : ℕ → Bytes → Type 0
Without c s = All (λ x. nat_eqb x c ≡ false) s

pub Without-append : (c : ℕ) (s t : Bytes) → Without c s → Without c t → Without c (s ++ t)
Without-append c [] t p q = q
Without-append c (x ∷ s) t (e, p) q = (e, Without-append c s t p q)

pub Without-take : (c n : ℕ) (s : Bytes) → Without c s → Without c (take n s)
Without-take c zero s p = tt
Without-take c (suc n) [] p = tt
Without-take c (suc n) (x ∷ s) (e, p) = (e, Without-take c n s p)

pub index_byte-none : (c : ℕ) (s : Bytes) → Without c s → index_byte s c ≡ none
unfolding index_byte
index_byte-none c [] p = refl
index_byte-none c (x ∷ s) (e, p) = rw (index_byte, e, index_byte-none c s p) refl

pub contains_byte-false : (c : ℕ) (s : Bytes) → Without c s → contains_byte s c ≡ false
unfolding contains_byte
contains_byte-false c s p = rw (contains_byte, index_byte-none c s p) refl

nat_eqb_refl : (n : ℕ) → nat_eqb n n ≡ true
nat_eqb_refl n = ground arith

pub index_byte_found :
    (c : ℕ) (s t : Bytes) → Without c s → index_byte (s ++ (c ∷ t)) c ≡ some (length s)
unfolding index_byte
index_byte_found c [] t p = rw (nat_eqb_refl c) refl
index_byte_found c (x ∷ s) t (e, p) = rw (index_byte, e, index_byte_found c s t p) refl

pub last_index_byte-none : (c : ℕ) (s : Bytes) → Without c s → last_index_byte s c ≡ none
unfolding last_index_byte
last_index_byte-none c [] p = refl
last_index_byte-none c (x ∷ s) (e, p) = rw (last_index_byte, last_index_byte-none c s p, e) refl

pub last_index_byte_found :
    (c : ℕ) (s t : Bytes) → Without c t → last_index_byte (s ++ (c ∷ t)) c ≡ some (length s)
unfolding last_index_byte
last_index_byte_found c [] t p =
    rw (last_index_byte, last_index_byte-none c t p, nat_eqb_refl c) refl
last_index_byte_found c (x ∷ s) t p = rw (last_index_byte, last_index_byte_found c s t p) refl

pub index_byte-Without : (c : ℕ) (s : Bytes) → index_byte s c ≡ none → Without c s
unfolding index_byte
index_byte-Without c [] h = tt
index_byte-Without c (x ∷ s) h = elim (Bool-cases (nat_eqb x c)) [
  | inl y ↦ absurd (ground arith)
  | inr n ↦ (n, index_byte-Without c s (ground arith))
]

pub contains_byte-Without : (c : ℕ) (s : Bytes) → contains_byte s c ≡ false → Without c s
unfolding contains_byte
contains_byte-Without c s h = index_byte-Without c s (ground arith)

-- In front of the first one there is none.
pub take-Without : (c i : ℕ) (s : Bytes) → index_byte s c ≡ some i → Without c (take i s)
unfolding index_byte
take-Without c i [] h = absurd (ground arith)
take-Without c zero (x ∷ s) h = tt
take-Without c (suc i) (x ∷ s) h = elim (Bool-cases (nat_eqb x c)) [
  | inl y ↦ absurd (ground arith)
  | inr n ↦ (n, take-Without c i s (ground arith))
]

-- A number has only digits.
pub digits_of-Without : (c fuel n : ℕ) → b'9' < c → Without c (digits_of fuel n)
unfolding digits_of
digits_of-Without c zero n h = tt
digits_of-Without c (suc fuel) n h = elim (Bool-cases (ltb n 10)) [
  | inl y ↦ rw y (ground arith, tt)
  | inr m ↦ rw m (
      Without-append c (digits_of fuel (n / 10)) _ (digits_of-Without c fuel (n / 10) h)
        (ground arith, tt))
]
