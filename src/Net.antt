-- ===== src/Net.antt =====
-- What the sources use of the packages net and net/netip, with strconv.ParseUint for ports.
pub mod HostPort
use network_ultra_server.Prelude.{
  ℕ, suc, ◌+◌, ◌-◌, ◌*◌, ◌/◌, ◌^◌, Bool, true, ◌&&◌, ◌||◌, List, [], ◌∷◌, ◌++◌, Option, none, some,
  ◌==◌, ltb, leb, nat_eqb, if◌then◌else◌, length, take, drop, get_or, bytes_eq, slice,
}
use network_ultra_server.Strings.{Bytes, index_byte, last_index_byte, contains_byte, digits}

-- netip.Addr: the 4 or 16 bytes of the address.
pub record Addr : Type 0 where
  pub ip : List ℕ
  pub zone : Bytes

abbrev v4_in_v6_prefix : List ℕ
v4_in_v6_prefix = 0 ∷ 0 ∷ 0 ∷ 0 ∷ 0 ∷ 0 ∷ 0 ∷ 0 ∷ 0 ∷ 0 ∷ 255 ∷ 255 ∷ []

-- net.IP: the four bytes of an IPv4 address in either form, and any other address as it is.
unfoldable pub short_ip : List ℕ → List ℕ
short_ip ip = if nat_eqb (length ip) 16 && take 12 ip == v4_in_v6_prefix then drop 12 ip else ip

abbrev loopback_v6 : List ℕ
loopback_v6 = 0 ∷ 0 ∷ 0 ∷ 0 ∷ 0 ∷ 0 ∷ 0 ∷ 0 ∷ 0 ∷ 0 ∷ 0 ∷ 0 ∷ 0 ∷ 0 ∷ 0 ∷ 1 ∷ []

-- ip.IsLoopback(), of net.IP.
unfoldable pub is_loopback : List ℕ → Bool
is_loopback ip =
    if nat_eqb (length (short_ip ip)) 4
    then nat_eqb (get_or (short_ip ip) 0 0) 127
    else ip == loopback_v6

-- addr.Is4In6()
unfoldable pub mapped_v4 : Addr → Bool
mapped_v4 a = nat_eqb (length a.ip) 16 && take 12 a.ip == v4_in_v6_prefix

-- addr.Unmap()
unfoldable pub unmap : Addr → Addr
unfolding mapped_v4
unmap a = if mapped_v4 a then record { ip = drop 12 a.ip; zone = [] } else a

-- netip.Prefix
pub record Prefix : Type 0 where
  pub addr : Addr
  pub bits : ℕ

-- Whether the first bits of two addresses are the same.
unfoldable pub same_bits : ℕ → List ℕ → List ℕ → Bool
same_bits bits [] ys = true
same_bits bits (x ∷ xs) [] = true
same_bits bits (x ∷ xs) (y ∷ ys) =
    let rest = same_bits (bits - 8) xs ys in
    if ltb bits 8
    then nat_eqb (x / (2 ^ (8 - bits))) (y / (2 ^ (8 - bits)))
    else nat_eqb x y && rest

-- prefix.Contains(addr)
unfoldable pub contains : Prefix → Addr → Bool
contains p a =
    a.zone == [] && (nat_eqb (length a.ip) (length p.addr.ip) && same_bits p.bits p.addr.ip a.ip)

-- net.SplitHostPort from where the last colon, and for a bracket the host's end, are known.
unfoldable pub split_at : Bytes → ℕ → ℕ → ℕ → Bytes → Option (Bytes × Bytes)
split_at hostport i j k host =
    if contains_byte (drop j hostport) b'[' || contains_byte (drop k hostport) b']'
    then none
    else some (host, drop (suc i) hostport)

-- net.SplitHostPort, with none for its errors.
unfoldable pub split_host_port : Bytes → Option (Bytes × Bytes)
split_host_port hostport = elim (last_index_byte hostport b':') [
  | none ↦ none
  | some i ↦
      if nat_eqb (get_or hostport 0 0) b'['
      then (elim (index_byte hostport b']') [
        | none ↦ none
        | some end ↦
            if nat_eqb (suc end) i
            then split_at hostport i 1 (suc end) (slice 1 end hostport)
            else none
      ])
      else if contains_byte (take i hostport) b':'
      then none
      else split_at hostport i 0 0 (take i hostport)
]

-- `strconv.ParseUint(s, 10, 16)`, with none for its errors.
unfoldable pub parse_uint16 : Bytes → Option ℕ
parse_uint16 [] = none
parse_uint16 (c ∷ cs) = elim (digits 0 (c ∷ cs)) [
  | none ↦ none
  | some n ↦ if leb n 65535 then some n else none
]

-- net.JoinHostPort
unfoldable pub join_host_port : Bytes → Bytes → Bytes
join_host_port host port =
    if contains_byte host b':' || contains_byte host b'%'
    then b'[' ∷ (host ++ (b']' ∷ b':' ∷ port))
    else host ++ (b':' ∷ port)
