-- ===== src/Proto/Tests.antt =====
-- The frames of internal/proto at concrete inputs.
use network_ultra_server.Prelude.{ℕ, ◌≡◌, ◌++◌, refl, List, [], ◌∷◌, arith, replicate, drop}
use network_ultra_server.Proto.Buffer.{put_u16, get_u16, Bytes}
use network_ultra_server.Proto.Audio.{AudioFrameHeader, ok, pack, unpack}
use network_ultra_server.Proto.Audio.Wire.{pack-layout, unpack-pack, pack-unpack}
use network_ultra_server.Proto.Udp
use network_ultra_server.Proto.Udp.{
  UdpHelloFrame, pack_udp_hello, unpack_udp_hello, pack_udp_welcome, pack_udp_ping, unpack_udp_ping,
  pack_udp_pong, peek_udp_type, udp_frame_type_hello, udp_frame_type_welcome, udp_frame_type_ping,
  udp_frame_type_pong,
}
use network_ultra_server.Proto.Udp.Wire.{head, pack_udp_hello-layout, unpack-pack_udp_ping}

abbrev speaker : List ℕ
speaker = replicate 16 7

abbrev header : AudioFrameHeader
header = record { source_peer_id = speaker; seq = 258; len = 0 }

abbrev sound : List ℕ
sound = 1 ∷ 2 ∷ 3 ∷ []

abbrev old_buffer : List ℕ
old_buffer = replicate 40 255

abbrev frame : List ℕ
frame = 161 ∷ 0 ∷ 0 ∷ 0 ∷ (speaker ++ 2 ∷ 1 ∷ 3 ∷ 0 ∷ sound)

abbrev dirty_frame : List ℕ
dirty_frame = 161 ∷ 9 ∷ 9 ∷ 9 ∷ (speaker ++ 2 ∷ 1 ∷ 3 ∷ 0 ∷ sound)

abbrev token : List ℕ
token = replicate 32 5

abbrev hello : UdpHelloFrame
hello = record { peer_id = speaker; token = token }

frame_lem : pack header sound old_buffer ≡ ok frame
unfolding put_u16
frame_lem = pack-layout header sound old_buffer refl (omega arith)

unpack-pack_example : unpack frame ≡ ok (record header { len = 3 }, sound)
unpack-pack_example = unpack-pack header sound old_buffer refl (omega arith) frame_lem

dirty_lem : unpack dirty_frame ≡ ok (record header { len = 3 }, sound)
unfolding unpack get_u16
dirty_lem = refl

dirty-Bytes : Bytes dirty_frame
dirty-Bytes = ground arith

pack-unpack_example :
    pack (record header { len = 3 }) sound old_buffer ≡ ok (161 ∷ 0 ∷ 0 ∷ 0 ∷ drop 4 dirty_frame)
pack-unpack_example = pack-unpack dirty_frame old_buffer dirty-Bytes dirty_lem

pack_udp_hello-layout_example :
    pack_udp_hello hello old_buffer ≡ head udp_frame_type_hello ++ (speaker ++ token)
pack_udp_hello-layout_example = pack_udp_hello-layout hello old_buffer refl refl

unpack-pack_udp_ping_example : unpack_udp_ping (pack_udp_ping speaker old_buffer) ≡ Udp.ok speaker
unpack-pack_udp_ping_example = unpack-pack_udp_ping speaker old_buffer refl
