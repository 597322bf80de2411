-- ===== src/Proto/Buffer/Writes.antt =====
-- Writing the fields of a frame one behind the other into a buffer.
use mathlib.Core.List.{append-nil, append_assoc, flatten}
use network_ultra_server.Prelude.{
  ℕ, ◌+◌, ◌≡◌, refl, ap, ◌∙◌, List, [], ◌∷◌, ◌++◌, arith, length, drop, copy_at, copy_at-append,
  length-append, length-drop, drop_all,
}

-- The fields written one behind the other, from offset `n` on.
write_fields : ℕ → List (List ℕ) → List ℕ → List ℕ
write_fields n [] buf = buf
write_fields n (f ∷ fs) buf = write_fields (n + length f) fs (copy_at n f buf)

abbrev total : List (List ℕ) → ℕ
total [] = 0
total (f ∷ fs) = length f + total fs

write_fields-flatten :
    (n : ℕ) (fs : List (List ℕ)) (done buf : List ℕ)
    → length done ≡ n
    → length buf ≡ total fs
    → write_fields n fs (done ++ buf) ≡ done ++ flatten fs
unfolding write_fields flatten
write_fields-flatten n [] done buf e h = ap (◌++◌ done) (drop_all 0 buf (omega arith))
write_fields-flatten n (f ∷ fs) done buf e h = rw (copy_at-append n done f buf e (omega arith)) (
    write_fields-flatten (n + length f) fs (done ++ f) (drop (length f) buf)
      (omega (arith, length-append {0} done f)) (omega (arith, length-drop {0} (length f) buf))
    ∙ append_assoc done f (flatten fs))

module _ (a b buf : List ℕ) (la : length a ≡ 4) (lb : length b ≡ 16) where
  pub two_writes : length buf ≡ 20 → copy_at 4 b (copy_at 0 a buf) ≡ a ++ b
  unfolding write_fields flatten
  two_writes e =
      rw (la, append-nil) at (write_fields-flatten 0 (a ∷ b ∷ []) [] buf refl (omega arith))

  pub three_writes :
      (c : List ℕ)
      → length buf ≡ 20 + length c
      → copy_at 20 c (copy_at 4 b (copy_at 0 a buf)) ≡ a ++ (b ++ c)
  unfolding write_fields flatten
  three_writes c e =
      simp (la, lb, append-nil) at
        (write_fields-flatten 0 (a ∷ b ∷ c ∷ []) [] buf refl (omega arith))

  pub five_writes :
      (c d e : List ℕ)
      → length c ≡ 2
      → length d ≡ 2
      → length buf ≡ 24 + length e
      → copy_at 24 e (copy_at 22 d (copy_at 20 c (copy_at 4 b (copy_at 0 a buf))))
        ≡ a ++ (b ++ (c ++ (d ++ e)))
  unfolding write_fields flatten
  five_writes c d e lc ld h =
      simp (la, lb, lc, ld, append-nil) at
        (write_fields-flatten 0 (a ∷ b ∷ c ∷ d ∷ e ∷ []) [] buf refl (omega arith))
