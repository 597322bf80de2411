-- ===== src/Strings/Lemmas.antt =====
-- How splitting and joining go through concatenation.
use network_ultra_server.Prelude.{
  ℕ, ◌≡◌, refl, inl, inr, true, [], ◌∷◌, ◌++◌, arith, nat_eqb, Bool-cases,
}
use network_ultra_server.Strings.{Bytes, split_first, split}

nat_eqb_refl : (n : ℕ) → nat_eqb n n ≡ true
nat_eqb_refl n = ground arith

pub split_first-append :
    (sep : ℕ) (s t : Bytes)
    → split_first (s ++ (sep ∷ t)) sep
      ≡ ((split_first s sep).0, (split_first s sep).1 ++ split t sep)
unfolding split_first split
split_first-append sep [] t = rw (nat_eqb_refl sep) refl
split_first-append sep (c ∷ cs) t =
    rw (split_first-append sep cs t)
      (elim (Bool-cases (nat_eqb c sep)) [ inl y ↦ rw y refl | inr n ↦ rw n refl ])

-- A separator in the text splits it there.
pub split-append : (sep : ℕ) (s t : Bytes) → split (s ++ (sep ∷ t)) sep ≡ split s sep ++ split t sep
unfolding split
split-append sep s t = rw (split_first-append sep s t) refl
