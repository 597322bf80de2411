-- ===== src/Proto/Audio.antt =====
-- internal/proto/audio_frame.go: the 24-byte header of an audio frame, packed and unpacked.

pub mod Wire
use network_ultra_server.Prelude.{
  ℕ, ◌+◌, ◌%◌, ◌≡◌, refl, ◌⊎◌, inl, inr, List, [], ◌∷◌, ltb, nat_eqb, not, if◌then◌else◌, length,
  drop, slice, get_or, copy_at,
}
use network_ultra_server.Proto.Buffer.{resize, put_u16, get_u16}

abbrev pub audio_frame_type : ℕ
audio_frame_type = 0xA1

abbrev pub audio_header_size : ℕ
audio_header_size = 24

abbrev pub max_audio_payload : ℕ
max_audio_payload = 8192

-- The 16 bytes of the sender's UUID, the sequence number and the payload's length, both uint16.
pub record AudioFrameHeader : Type 0 where
  pub source_peer_id : List ℕ
  pub seq : ℕ
  pub len : ℕ

pub data AudioError : Type 0 where
  too_short bad_type payload_too_big length_mismatch : AudioError

pub data Result {ℓ} (A : Type ℓ) : Type ℓ where
  ok : A → Result A
  err : AudioError → Result A

-- `dst` is the backing array of the slice that the caller hands over for reuse.
unfoldable pub pack : AudioFrameHeader → List ℕ → List ℕ → Result (List ℕ)
pack h payload dst =
    if ltb max_audio_payload (length payload)
    then err AudioError.payload_too_big
    else (let d0 = resize (audio_header_size + length payload) dst in
        let d1 = copy_at 0 (audio_frame_type ∷ 0 ∷ 0 ∷ 0 ∷ []) d0 in
        let d2 = copy_at 4 h.source_peer_id d1 in
        let d3 = copy_at 20 (put_u16 h.seq) d2 in
        let d4 = copy_at 22 (put_u16 (length payload % 65536)) d3 in ok (copy_at 24 payload d4))

unfoldable pub unpack : List ℕ → Result (AudioFrameHeader × List ℕ)
unpack src =
    if ltb (length src) audio_header_size
    then err AudioError.too_short
    else if not (nat_eqb (get_or src 0 0) audio_frame_type)
    then err AudioError.bad_type
    else (let h : AudioFrameHeader = record {
      source_peer_id = slice 4 20 src;
      seq = get_u16 (slice 20 22 src);
      len = get_u16 (slice 22 24 src);
    } in
        if ltb max_audio_payload h.len
        then err AudioError.payload_too_big
        else if not (nat_eqb (h.len + audio_header_size) (length src))
        then err AudioError.length_mismatch
        else ok (h, drop audio_header_size src))

pub Result-cases {ℓ} :
    {A : Type ℓ} (r : Result A) → ((e : AudioError) × (r ≡ err e)) ⊎ ((a : A) × (r ≡ ok a))
Result-cases (ok a) = inr (a, refl)
Result-cases (err e) = inl (e, refl)
