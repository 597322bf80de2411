-- ===== src/Proto/Audio/Wire.antt =====
-- What `Pack` puts on the wire, and what `Unpack` accepts.
use network_ultra_server.Prelude.{
  ℕ, zero, suc, ◌+◌, ◌%◌, ◌/◌, ◌≤◌, ◌<◌, ◌≡◌, refl, sym, ap, ◌∙◌, List, [], ◌∷◌, ◌++◌, arith, ltb,
  nat_eqb, true, false, drop-drop, length, take, drop, slice, get_or, length-append, length-drop,
  length-take, take-append, drop-append, take-append-drop,
}
use network_ultra_server.Proto.Buffer.{
  resize, put_u16, get_u16, length-resize, put_u16-get_u16, Bytes,
}
use network_ultra_server.Proto.Buffer.Writes.{five_writes}
use network_ultra_server.Proto.Audio.{
  AudioFrameHeader, ok, pack, unpack, audio_frame_type, audio_header_size, max_audio_payload,
}

-- The layout that the comment of audio_frame.go documents.
abbrev pub layout : List ℕ → ℕ → List ℕ → List ℕ
layout id seq payload =
    (audio_frame_type ∷ 0 ∷ 0 ∷ 0 ∷ [])
    ++ (id ++ (put_u16 seq ++ (put_u16 (length payload) ++ payload)))

length-put_u16 : (v : ℕ) → length (put_u16 v) ≡ 2
unfolding put_u16
length-put_u16 v = refl

-- For a 16-byte identifier and a payload within the limit, a packed audio frame has the documented
-- layout, whatever the buffer for reuse held.
pub pack-layout :
    (h : AudioFrameHeader) (payload dst : List ℕ)
    → length h.source_peer_id ≡ 16
    → length payload ≤ max_audio_payload
    → pack h payload dst ≡ ok (layout h.source_peer_id h.seq payload)
unfolding pack
pack-layout h payload dst lid small =
    let fits : ltb max_audio_payload (length payload) ≡ false = ground arith in
    let short : length payload % 65536 ≡ length payload = omega arith in
    rw (fits, short)
      (ap ok (
        five_writes (audio_frame_type ∷ 0 ∷ 0 ∷ 0 ∷ []) h.source_peer_id
          (resize (audio_header_size + length payload) dst) refl lid (put_u16 h.seq)
          (put_u16 (length payload)) payload (length-put_u16 h.seq)
          (length-put_u16 (length payload))
          (length-resize (audio_header_size + length payload) dst)))

bytes_of_word : (v : ℕ) (rest : List ℕ) → v < 65536 → get_u16 (take 2 (put_u16 v ++ rest)) ≡ v
unfolding put_u16 get_u16
bytes_of_word v rest h = omega arith

module _ (id payload : List ℕ) (seq : ℕ) (lid : length id ≡ 16)
    (fits : length payload ≤ max_audio_payload) (word : seq < 65536) where
  behind_id : (rest : List ℕ) (k : ℕ) → drop (16 + k) (id ++ rest) ≡ drop k rest
  behind_id rest k = sym (drop-drop k 16 (id ++ rest)) ∙ ap (drop k) (drop-append 16 id rest lid)

  layout-fields :
      (slice 4 20 (layout id seq payload) ≡ id)
      × (get_u16 (slice 20 22 (layout id seq payload)) ≡ seq)
      × (get_u16 (slice 22 24 (layout id seq payload)) ≡ length payload)
      × (drop 24 (layout id seq payload) ≡ payload)
      × (length (layout id seq payload) ≡ 24 + length payload)
  unfolding put_u16 get_u16
  layout-fields = (
    take-append 16 id _ lid,
    rw (behind_id _ 0) (omega arith),
    rw (behind_id _ 2) (omega arith),
    behind_id _ 4,
    omega (
      arith,
      length-append {0} id (
          seq % 256
          ∷ seq / 256 % 256
          ∷ length payload % 256
          ∷ length payload / 256 % 256
          ∷ payload),
    ),
  )

  unpack-layout :
      unpack (layout id seq payload)
      ≡ ok (record { source_peer_id = id; seq = seq; len = length payload }, payload)
  unfolding unpack
  unpack-layout =
      let (f0, f1, f2, f3, f4) = layout-fields in
      let long : ltb (length (layout id seq payload)) 24 ≡ false = ground arith in
      let small : ltb max_audio_payload (length payload) ≡ false = ground arith in
      let exact : nat_eqb (length payload + 24) (24 + length payload) ≡ true = ground arith in
      rw (long, f0, f1, f2, f3, f4, small, exact)

pack-fits :
    (h : AudioFrameHeader) (payload dst : List ℕ) {frame : List ℕ}
    → pack h payload dst ≡ ok frame
    → length payload ≤ max_audio_payload
unfolding pack
pack-fits h payload dst packed = ground arith

-- Unpacking a packed audio frame gives back the header, with the payload's length, and the
-- payload, for a 16-byte identifier and a 16-bit sequence number.
pub unpack-pack :
    (h : AudioFrameHeader) (payload dst : List ℕ) {frame : List ℕ}
    → length h.source_peer_id ≡ 16
    → h.seq < 65536
    → pack h payload dst ≡ ok frame
    → unpack frame ≡ ok (record h { len = length payload }, payload)
unpack-pack h payload dst {frame} lid word packed =
    let fits = pack-fits h payload dst packed in
    let e : frame ≡ layout h.source_peer_id h.seq payload =
      cc (pack-layout h payload dst lid fits) in
    rw e (unpack-layout h.source_peer_id payload h.seq lid fits word)

-- An audio frame that is accepted has the type byte, exactly the declared number of payload bytes
-- behind the header, no more than the limit, and a 16-byte identifier.
pub unpack-IsFramed :
    (src : List ℕ) {h : AudioFrameHeader} {payload : List ℕ}
    → unpack src ≡ ok (h, payload)
    → (get_or src 0 0 ≡ audio_frame_type)
      × (length src ≡ audio_header_size + length payload)
      × (h.len ≡ length payload)
      × (length payload ≤ max_audio_payload)
      × (length h.source_peer_id ≡ 16)
unfolding unpack
unpack-IsFramed src e =
    ground (arith, length-drop {0} 24 src, length-take {0} 16 (drop 4 src), length-drop {0} 4 src)

word_exact : (xs : List ℕ) → Bytes xs → 2 ≤ length xs → put_u16 (get_u16 (take 2 xs)) ≡ take 2 xs
word_exact [] b h = absurd (omega arith)
word_exact (x ∷ []) b h = absurd (omega arith)
word_exact (x ∷ y ∷ xs) b h = put_u16-get_u16 x y b.0 b.1.0

Bytes-drop : (n : ℕ) (xs : List ℕ) → Bytes xs → Bytes (drop n xs)
Bytes-drop zero xs b = b
Bytes-drop (suc n) [] b = b
Bytes-drop (suc n) (x ∷ xs) b = Bytes-drop n xs b.1

fields_of :
    (src : List ℕ)
    → drop 4 src ≡ slice 4 20 src ++ (slice 20 22 src ++ (slice 22 24 src ++ drop 24 src))
fields_of src =
    sym (take-append-drop 16 (drop 4 src))
    ∙ ap (◌++◌ (slice 4 20 src)) (
        drop-drop 16 4 src
        ∙ sym (take-append-drop 2 (drop 20 src))
        ∙ ap (◌++◌ (slice 20 22 src)) (
            drop-drop 2 20 src
            ∙ sym (take-append-drop 2 (drop 22 src))
            ∙ ap (◌++◌ (slice 22 24 src)) (drop-drop 2 22 src)))

unpack-fields :
    (src : List ℕ) {h : AudioFrameHeader} {payload : List ℕ}
    → unpack src ≡ ok (h, payload)
    → (h.source_peer_id ≡ slice 4 20 src)
      × (h.seq ≡ get_u16 (slice 20 22 src))
      × (h.len ≡ get_u16 (slice 22 24 src))
      × (payload ≡ drop 24 src)
unfolding unpack
unpack-fields src e = ground arith

-- Packing what was unpacked from a frame of bytes gives back the frame with its three reserved
-- bytes zeroed.
pub pack-unpack :
    (src dst : List ℕ) {h : AudioFrameHeader} {payload : List ℕ}
    → Bytes src
    → unpack src ≡ ok (h, payload)
    → pack h payload dst ≡ ok (audio_frame_type ∷ 0 ∷ 0 ∷ 0 ∷ drop 4 src)
pack-unpack src dst {h} {payload} bytes e =
    let (_, size, len_eq, small, lid) = unpack-IsFramed src e in
    let (id_eq, seq_eq, declared, payload_eq) = unpack-fields src e in
    let seq_bytes =
      word_exact (drop 20 src) (Bytes-drop 20 src bytes) (omega (arith, length-drop {0} 20 src)) in
    let len_bytes =
      word_exact (drop 22 src) (Bytes-drop 22 src bytes) (omega (arith, length-drop {0} 22 src)) in
    pack-layout h payload dst lid small
    ∙ ap (λ (r : List ℕ). ok (audio_frame_type ∷ 0 ∷ 0 ∷ 0 ∷ r))
        (rw (fields_of src, id_eq, seq_eq, seq_bytes, ← len_eq, declared, len_bytes, payload_eq))
