-- ===== src/Proto/Udp/Wire.antt =====
-- What the control frames put on the wire, and what their readers accept.
use mathlib.Core.List.{append-nil}
use network_ultra_server.Prelude.{
  ℕ, ◌≡◌, ◌↔◌, refl, sym, ap, ◌∙◌, List, [], ◌∷◌, ◌++◌, arith, nat_eqb, true, length, take, slice,
  length-append, take-append, drop-append,
}
use network_ultra_server.Proto.Buffer.{resize, length-resize}
use network_ultra_server.Proto.Buffer.Writes.{two_writes, three_writes}
use network_ultra_server.Proto.Udp.{
  UdpHelloFrame, ok, pack_udp_hello, unpack_udp_hello, pack_udp_welcome, pack_udp_ping,
  unpack_udp_ping, pack_udp_pong, peek_udp_type, udp_frame_type_hello, udp_frame_type_ping,
  udp_frame_type_welcome, udp_frame_type_pong,
}

abbrev pub head : ℕ → List ℕ
head typ = typ ∷ 0 ∷ 0 ∷ 0 ∷ []

pub pack_udp_hello-layout :
    (f : UdpHelloFrame) (dst : List ℕ)
    → length f.peer_id ≡ 16
    → length f.token ≡ 32
    → pack_udp_hello f dst ≡ head udp_frame_type_hello ++ (f.peer_id ++ f.token)
unfolding pack_udp_hello
pack_udp_hello-layout f dst lid ltok =
    three_writes (head udp_frame_type_hello) f.peer_id (resize 52 dst) refl lid f.token
      (omega (arith, length-resize 52 dst))

-- For a 16-byte identifier, welcome, ping and pong are the type byte, three zero bytes and the
-- identifier, whatever the buffer for reuse held.
pub pack_control-layout :
    (id dst : List ℕ)
    → length id ≡ 16
    → (pack_udp_welcome id dst ≡ head udp_frame_type_welcome ++ id)
      × (pack_udp_ping id dst ≡ head udp_frame_type_ping ++ id)
      × (pack_udp_pong id dst ≡ head udp_frame_type_pong ++ id)
unfolding pack_udp_welcome pack_udp_ping pack_udp_pong
pack_control-layout id dst lid =
    let size = length-resize 20 dst in
    (
      two_writes (head udp_frame_type_welcome) id (resize 20 dst) refl lid size,
      two_writes (head udp_frame_type_ping) id (resize 20 dst) refl lid size,
      two_writes (head udp_frame_type_pong) id (resize 20 dst) refl lid size,
    )

pub take_whole : (n : ℕ) (xs : List ℕ) → length xs ≡ n → take n xs ≡ xs
take_whole n xs h = ap (take n) (sym (append-nil xs)) ∙ take-append n xs [] h

-- A packed hello of a 16-byte identifier and a 32-byte token is read back, whatever the buffer for
-- reuse held.
pub unpack-pack_udp_hello :
    (f : UdpHelloFrame) (dst : List ℕ)
    → length f.peer_id ≡ 16
    → length f.token ≡ 32
    → unpack_udp_hello (pack_udp_hello f dst) ≡ ok f
unfolding unpack_udp_hello
unpack-pack_udp_hello f dst lid ltok =
    let size : nat_eqb (length (head udp_frame_type_hello ++ (f.peer_id ++ f.token))) 52 ≡ true =
      ground (arith, length-append {0} f.peer_id f.token) in
    rw (
      pack_udp_hello-layout f dst lid ltok,
      size,
      take-append 16 f.peer_id f.token lid,
      drop-append 16 f.peer_id f.token lid,
      take_whole 32 f.token ltok,
    )

-- A packed ping is read back.
pub unpack-pack_udp_ping :
    (id dst : List ℕ) → length id ≡ 16 → unpack_udp_ping (pack_udp_ping id dst) ≡ ok id
unfolding unpack_udp_ping
unpack-pack_udp_ping id dst lid =
    let size : nat_eqb (length (head udp_frame_type_ping ++ id)) 20 ≡ true = ground arith in
    rw ((pack_control-layout id dst lid).1, size, take_whole 16 id lid)

-- The readers of hello and ping accept a datagram exactly if it has the frame's size and type
-- byte.
pub accepts_iff :
    (src : List ℕ)
    → (((f : UdpHelloFrame) × (unpack_udp_hello src ≡ ok f))
        ↔ ((length src ≡ 52) × (peek_udp_type src ≡ ok udp_frame_type_hello)))
      × (((id : List ℕ) × (unpack_udp_ping src ≡ ok id))
          ↔ ((length src ≡ 20) × (peek_udp_type src ≡ ok udp_frame_type_ping)))
unfolding unpack_udp_hello unpack_udp_ping peek_udp_type
accepts_iff src = (
  (
    λ w. (ground (arith, w.1), ground (arith, w.1)),
    λ h. (record { peer_id = slice 4 20 src; token = slice 20 52 src }, ground arith),
  ),
  (λ w. (ground (arith, w.1), ground (arith, w.1)), λ h. (slice 4 20 src, ground arith)),
)
