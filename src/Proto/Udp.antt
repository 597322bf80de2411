-- ===== src/Proto/Udp.antt =====
-- internal/proto/udp_frame.go: the control frames of the UDP data plane.
pub mod Wire
use network_ultra_server.Prelude.{
  ℕ, ◌-◌, ◌≡◌, refl, ◌⊎◌, inl, inr, List, [], ◌∷◌, ltb, nat_eqb, not, if◌then◌else◌, length, drop,
  take, slice, get_or, copy_at,
}
use network_ultra_server.Proto.Buffer.{resize}

abbrev pub udp_frame_type_hello : ℕ
udp_frame_type_hello = 0xC0

abbrev pub udp_frame_type_welcome : ℕ
udp_frame_type_welcome = 0xC1

abbrev pub udp_frame_type_ping : ℕ
udp_frame_type_ping = 0xC2

abbrev pub udp_frame_type_pong : ℕ
udp_frame_type_pong = 0xC3

abbrev pub udp_hello_size : ℕ
udp_hello_size = 52

-- The welcome, ping and pong frames have one size.
abbrev pub udp_welcome_size : ℕ
udp_welcome_size = 20

abbrev pub udp_ping_size : ℕ
udp_ping_size = 20

abbrev pub udp_pong_size : ℕ
udp_pong_size = 20

abbrev pub udp_token_size : ℕ
udp_token_size = 32

pub data UdpError : Type 0 where
  too_short bad_type bad_size : UdpError

pub data Result {ℓ} (A : Type ℓ) : Type ℓ where
  ok : A → Result A
  err : UdpError → Result A

pub record UdpHelloFrame : Type 0 where
  pub peer_id : List ℕ
  pub token : List ℕ

unfoldable pub pack_udp_hello : UdpHelloFrame → List ℕ → List ℕ
pack_udp_hello f dst = copy_at 20 f.token (
    copy_at 4 f.peer_id
      (copy_at 0 (udp_frame_type_hello ∷ 0 ∷ 0 ∷ 0 ∷ []) (resize udp_hello_size dst)))

unfoldable pub unpack_udp_hello : List ℕ → Result UdpHelloFrame
unpack_udp_hello src =
    if not (nat_eqb (length src) udp_hello_size)
    then err UdpError.bad_size
    else if not (nat_eqb (get_or src 0 0) udp_frame_type_hello)
    then err UdpError.bad_type
    else ok (record { peer_id = slice 4 20 src; token = slice 20 52 src })

unfoldable pub pack_udp_welcome : List ℕ → List ℕ → List ℕ
pack_udp_welcome peer_id dst =
    copy_at 4 peer_id
      (copy_at 0 (udp_frame_type_welcome ∷ 0 ∷ 0 ∷ 0 ∷ []) (resize udp_welcome_size dst))

unfoldable pub pack_udp_ping : List ℕ → List ℕ → List ℕ
pack_udp_ping peer_id dst =
    copy_at 4 peer_id (copy_at 0 (udp_frame_type_ping ∷ 0 ∷ 0 ∷ 0 ∷ []) (resize udp_ping_size dst))

-- The ping's only field is the peer's identifier.
unfoldable pub unpack_udp_ping : List ℕ → Result (List ℕ)
unpack_udp_ping src =
    if not (nat_eqb (length src) udp_ping_size)
    then err UdpError.bad_size
    else if not (nat_eqb (get_or src 0 0) udp_frame_type_ping)
    then err UdpError.bad_type
    else ok (slice 4 20 src)

unfoldable pub pack_udp_pong : List ℕ → List ℕ → List ℕ
pack_udp_pong peer_id dst =
    copy_at 4 peer_id (copy_at 0 (udp_frame_type_pong ∷ 0 ∷ 0 ∷ 0 ∷ []) (resize udp_pong_size dst))

unfoldable pub peek_udp_type : List ℕ → Result ℕ
peek_udp_type src = if ltb (length src) 1 then err UdpError.too_short else ok (get_or src 0 0)

pub Result-cases {ℓ} :
    {A : Type ℓ} (r : Result A) → ((e : UdpError) × (r ≡ err e)) ⊎ ((a : A) × (r ≡ ok a))
Result-cases (ok a) = inr (a, refl)
Result-cases (err e) = inl (e, refl)
