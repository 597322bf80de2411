-- ===== src/Ws/Conn/Kept.antt =====
-- internal/ws/conn.go: what a write of audio makes of a queue.
use network_ultra_server.Prelude.{
  ℕ, ◌≡◌, ◌⊎◌, refl, ap, sym, subst, ◌∙◌, inl, inr, true, false, List, [], ◌∷◌, ◌++◌, arith, length,
  length-append, if◌then◌else◌,
}
use network_ultra_server.Ws.Conn.{Outgoing, conn_write_queue_depth}
use network_ultra_server.Ws.Conn.Displace.{sound}

-- The control messages of a queue, and its audio.
unfoldable pub controls : List Outgoing → List Outgoing
controls [] = []
controls (m ∷ ms) = let rest = controls ms in if m.binary then rest else m ∷ rest

unfoldable pub sounds : List Outgoing → List Outgoing
sounds [] = []
sounds (m ∷ ms) = let rest = sounds ms in if m.binary then m ∷ rest else rest

controls-append : (xs ys : List Outgoing) → controls (xs ++ ys) ≡ controls xs ++ controls ys
unfolding controls
controls-append [] ys = refl
controls-append (x ∷ xs) ys = ground (arith, controls-append xs ys)

sounds-append : (xs ys : List Outgoing) → sounds (xs ++ ys) ≡ sounds xs ++ sounds ys
unfolding sounds
sounds-append [] ys = refl
sounds-append (x ∷ xs) ys = ground (arith, sounds-append xs ys)

-- The first go behind the others, some number of times.
pub data Rotation : List Outgoing → List Outgoing → Type 0 where
  same : (ms : List Outgoing) → Rotation ms ms
  turned :
      (m : Outgoing) (ms ns : List Outgoing) → Rotation (ms ++ m ∷ []) ns → Rotation (m ∷ ms) ns

-- Nothing was dropped, or the queue was full and one message was.
abbrev pub DropsOne : List Outgoing → List Outgoing → Type 0
DropsOne q dropped =
    (dropped ≡ []) ⊎ ((length q ≡ conn_write_queue_depth) × ((m : Outgoing) × (dropped ≡ m ∷ [])))

-- What a write of audio did to a queue: the control messages are the same in turn, the audio lost
-- at most its oldest message, and has the new one at its end.
abbrev pub Displaces : List ℕ → List Outgoing → List Outgoing → Type 0
Displaces data_bytes q q' =
    Rotation (controls q) (controls q')
    × ((dropped kept : List Outgoing) × (sounds q ≡ dropped ++ kept)
        × (sounds q' ≡ kept ++ sound data_bytes ∷ [])
        × DropsOne q dropped)

append-nil : (xs : List Outgoing) → xs ++ [] ≡ xs
append-nil [] = refl
append-nil (x ∷ xs) = ap (◌∷◌ x) (append-nil xs)

controls_first :
    (m : Outgoing) (ms : List Outgoing) → m.binary ≡ false → m ∷ controls ms ≡ controls (m ∷ ms)
unfolding controls
controls_first m ms control = ground arith

module _ (data_bytes : List ℕ) where
  pub Displaces-free : (q : List Outgoing) → Displaces data_bytes q (q ++ sound data_bytes ∷ [])
  unfolding controls sounds
  Displaces-free q = (
    subst (Rotation (controls q))
        (sym (controls-append q (sound data_bytes ∷ []) ∙ append-nil (controls q)))
        (Rotation.same (controls q)),
    ([], sounds q, refl, sounds-append q (sound data_bytes ∷ []), inl refl),
  )

  pub Displaces-audio :
      (m : Outgoing) (ms q' : List Outgoing)
      → m.binary ≡ true
      → length (m ∷ ms) ≡ conn_write_queue_depth
      → Displaces data_bytes ms q'
      → Displaces data_bytes (m ∷ ms) q'
  unfolding controls sounds
  Displaces-audio m ms q' audio full (turns, (dropped, kept, split, rest, inr (full', _))) =
      absurd (omega (arith, full, full'))
  Displaces-audio m ms q' audio full (turns, (dropped, kept, split, rest, inl none)) = (
    rw (audio, controls) turns,
    (m ∷ [], kept, ground (arith, split, none), rest, inr (full, (m, refl))),
  )

  pub Displaces-control :
      (m : Outgoing) (ms q' : List Outgoing)
      → m.binary ≡ false
      → Displaces data_bytes (ms ++ m ∷ []) q'
      → Displaces data_bytes (m ∷ ms) q'
  unfolding controls sounds
  Displaces-control m ms q' control (turns, (dropped, kept, split, rest, one)) =
      let cs : controls (ms ++ m ∷ []) ≡ controls ms ++ m ∷ [] =
        ground (arith, controls-append ms (m ∷ [])) in
      let size : length (ms ++ m ∷ []) ≡ length (m ∷ ms) =
        omega (arith, length-append ms (m ∷ [])) in
      (
        subst (λ xs. Rotation xs (controls q')) (controls_first m ms control)
            (Rotation.turned m (controls ms) (controls q')
              (subst (λ xs. Rotation xs (controls q')) cs turns)),
        (
          dropped,
          kept,
          ground (arith, split, sounds-append ms (m ∷ []), append-nil (sounds ms)),
          rest,
          elim one [ inl none ↦ inl none | inr (full, which) ↦ inr (sym size ∙ full, which) ],
        ),
      )
