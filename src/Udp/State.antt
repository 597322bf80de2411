-- ===== src/Udp/State.antt =====
-- The state of internal/udp/server.go. A *room.Peer is known by its UUID; the address that a peer
-- object holds (Peer.udpAddr of room/peer.go) is kept here, since only this package writes it.
use network_ultra_server.Prelude.{
  ℕ, ◌≡◌, ◌↔◌, String, Bool, true, false, ◌&&◌, List, [], Option, none, some, arith, Eq, ◌==◌,
  nat_eqb, bytes_eq, bytes_eqb, bytes_eqb_iff, string_eq, nat_eq, ap,
}
use text.Mathlib.Text.{◌==◌ as str_eq}
use text.Mathlib.TextEquality.{eq_iff}
unfoldable pub use network_ultra_server.Net.{short_ip}
use network_ultra_server.Prelude.Maps.{Map}
use network_ultra_server.RateLimit.Limiter.{Limiter}
use network_ultra_server.RateLimit.Limiter
use network_ultra_server.Room.State.{Uuid}

-- net.UDPAddr
pub record UdpAddr : Type 0 where
  pub ip : List ℕ
  pub port : ℕ
  pub zone : String

abbrev pub addr_eqb : UdpAddr → UdpAddr → Bool
addr_eqb a b = bytes_eqb a.ip b.ip && (nat_eqb a.port b.port && str_eq a.zone b.zone)

pub addr_eqb_iff : (a b : UdpAddr) → (addr_eqb a b ≡ true) ↔ (a ≡ b)
addr_eqb_iff a b = (
  λ h. ground (arith, bytes_eqb_iff a.ip b.ip, eq_iff a.zone b.zone),
  λ e. ground (
    arith,
    bytes_eqb_iff a.ip b.ip,
    eq_iff a.zone b.zone,
    ap (λ (x : UdpAddr). x.ip) e,
    ap (λ (x : UdpAddr). x.port) e,
    ap (λ (x : UdpAddr). x.zone) e,
  ),
)

instance abbrev pub addr_eq : Eq UdpAddr
addr_eq = record { equal = addr_eqb; equal_iff = addr_eqb_iff }

-- addr.String(), by what it prints: it tells two addresses apart by the short form of the IP, the
-- port and the zone.
unfoldable pub addr_string : UdpAddr → UdpAddr
addr_string a = record a { ip = short_ip a.ip }

-- `a != nil && b != nil && a.Port == b.Port && a.Zone == b.Zone && a.IP.Equal(b.IP)`
unfoldable pub same_udp_addr : Option UdpAddr → UdpAddr → Bool
same_udp_addr none b = false
same_udp_addr (some a) b =
    nat_eqb a.port b.port && (str_eq a.zone b.zone && bytes_eqb (short_ip a.ip) (short_ip b.ip))

pub record Binding : Type 0 where
  pub peer : Uuid
  pub addr : UdpAddr
  pub token : List ℕ
  pub last_seen : ℕ

-- In the source bindings are compared by their pointers.
unfoldable pub same_binding : Binding → Binding → Bool
same_binding a b =
    (a.peer == b.peer)
    && ((a.addr == b.addr) && ((a.token == b.token) && nat_eqb a.last_seen b.last_seen))

pub record Server : Type 0 where
  pub peer_by_addr : Map UdpAddr Binding
  pub peer_by_id : Map Uuid (Unit {0})
  pub token_by_id : Map Uuid (List ℕ)
  pub udp_addr : Map Uuid UdpAddr
  pub senders : Map Uuid (Unit {0})
  pub hello_limiter : Limiter
  pub audio_limiter : Limiter
  pub hello_limit : ℕ
  pub audio_limit : ℕ

abbrev pub peer_idle_timeout : ℕ
peer_idle_timeout = 15_000_000_000

abbrev pub second : ℕ
second = 1_000_000_000

abbrev pub minute : ℕ
minute = 60_000_000_000

abbrev pub new_server : ℕ → ℕ → Server
new_server hello_limit audio_limit = record {
  peer_by_addr = [];
  peer_by_id = [];
  token_by_id = [];
  udp_addr = [];
  senders = [];
  hello_limiter = Limiter.new;
  audio_limiter = Limiter.new;
  hello_limit = hello_limit;
  audio_limit = audio_limit;
}
