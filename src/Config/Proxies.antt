-- ===== src/Config/Proxies.antt =====
-- What a trusted proxy's entry covers.
use network_ultra_server.Prelude.{
  All, ℕ, zero, suc, ◌+◌, ◌-◌, ◌*◌, ◌/◌, ◌^◌, ◌≡◌, ◌≤◌, ◌<◌, ◌⊎◌, refl, ap, subst, sym, ◌∙◌, inl,
  inr, false, List, [], ◌∷◌, none, some, ◌==◌, ltb, nat_eqb, if◌then◌else◌, length, bytes_eq, arith,
  Bool-cases, Option-cases,
}
use native.Mathlib.Nat.{one-le-pow, add-mul-div_right, mul-div_cancel}
use network_ultra_server.Strings.{Bytes, trim_space}
use network_ultra_server.Net.{Addr, Prefix, unmap, mapped_v4, contains, same_bits}
use network_ultra_server.Config.{Parsers, ok, parse_trusted_proxy, mask, masked}

pow_pos : (n : ℕ) → 0 < 2 ^ n
pow_pos n = one-le-pow n 2 (omega arith)

powers : (n : ℕ) → 1 ≤ n → n ≤ 8 → 128 ≡ 2 ^ (n - 1) * 2 ^ (8 - n)
powers zero low high = absurd (omega arith)
powers (suc zero) low high = refl
powers (suc (suc zero)) low high = refl
powers (suc (suc (suc zero))) low high = refl
powers (suc (suc (suc (suc zero)))) low high = refl
powers (suc (suc (suc (suc (suc zero))))) low high = refl
powers (suc (suc (suc (suc (suc (suc zero)))))) low high = refl
powers (suc (suc (suc (suc (suc (suc (suc zero))))))) low high = refl
powers (suc (suc (suc (suc (suc (suc (suc (suc zero)))))))) low high = refl
powers (suc (suc (suc (suc (suc (suc (suc (suc (suc n))))))))) low high = absurd (omega arith)

-- The top bit is among the first ones.
top_bit :
    (n x : ℕ) → 1 ≤ n → n ≤ 8 → nat_eqb (x / (2 ^ (8 - n))) ((x + 128) / (2 ^ (8 - n))) ≡ false
top_bit n x low high =
    let e = powers n low high in
    let shifted : (x + 128) / (2 ^ (8 - n)) ≡ x / (2 ^ (8 - n)) + 2 ^ (n - 1) =
      ap (λ k. (x + k) / (2 ^ (8 - n))) e ∙ add-mul-div_right x (2 ^ (n - 1)) (pow_pos (8 - n)) in
    let more = pow_pos (n - 1) in rw shifted (ground arith)

same_bits-mask :
    (bits : ℕ) (xs ys : List ℕ) → same_bits bits (mask bits xs) ys ≡ same_bits bits xs ys
unfolding same_bits mask
same_bits-mask bits [] ys = refl
same_bits-mask bits (x ∷ xs) [] = elim (Bool-cases (ltb bits 8)) [
  | inl y ↦ rw y refl
  | inr n ↦ rw n refl
]
same_bits-mask bits (x ∷ xs) (y ∷ ys) = elim (Bool-cases (ltb bits 8)) [
  | inl few ↦ rw (few, mul-div_cancel (x / (2 ^ (8 - bits))) (pow_pos (8 - bits)), few) refl
  | inr n ↦ rw (n, same_bits-mask (bits - 8) xs ys, n) refl
]

length-mask : (bits : ℕ) (xs : List ℕ) → length (mask bits xs) ≡ length xs
unfolding mask
length-mask bits [] = refl
length-mask bits (x ∷ xs) = elim (Bool-cases (ltb bits 8)) [
  | inl y ↦ rw y (ap suc (length-mask 0 xs))
  | inr n ↦ rw n (ap suc (length-mask (bits - 8) xs))
]

-- Clearing the bits behind the first ones changes nothing of what a prefix contains.
pub contains-masked : (p : Prefix) (a : Addr) → contains (masked p) a ≡ contains p a
unfolding contains masked
contains-masked p a = rw (length-mask p.bits p.addr.ip, same_bits-mask p.bits p.addr.ip a.ip) refl

-- An address as net/netip has it.
abbrev pub IsAddr : Addr → Type 0
IsAddr a = ((length a.ip ≡ 4) ⊎ (length a.ip ≡ 16)) × All (λ b. b < 256) a.ip

-- What netip's parsers return.
pub record ParserLaws (lib : Parsers) : Type 0 where
  pub addr_formed : (text : Bytes) (a : Addr) → lib.parse_addr text ≡ some a → IsAddr a
  pub prefix_formed : (text : Bytes) (p : Prefix) → lib.parse_prefix text ≡ some p → IsAddr p.addr

abbrev flip_top : ℕ → ℕ
flip_top x = if ltb x 128 then x + 128 else x - 128

flipped :
    (n x : ℕ) → 1 ≤ n → n ≤ 8 → nat_eqb (x / (2 ^ (8 - n))) (flip_top x / (2 ^ (8 - n))) ≡ false
flipped n x low high = elim (Bool-cases (ltb x 128)) [
  | inl y ↦ rw y (top_bit n x low high)
  | inr big ↦
      let back : x - 128 + 128 ≡ x = ground arith in
      let apart =
        subst (λ k. nat_eqb ((x - 128) / (2 ^ (8 - n))) (k / (2 ^ (8 - n))) ≡ false) back
          (top_bit n (x - 128) low high) in
      rw big (ground arith)
]

same_bits_flipped :
    (bits x : ℕ) (xs : List ℕ) → 1 ≤ bits → same_bits bits (x ∷ xs) (flip_top x ∷ xs) ≡ false
unfolding same_bits
same_bits_flipped bits x xs low = elim (Bool-cases (ltb bits 8)) [
  | inl few ↦ rw few (flipped bits x low (ground arith))
  | inr many ↦ rw many (ground arith)
]

flip_top-lt : (x : ℕ) → x < 256 → flip_top x < 256
flip_top-lt x h = ground arith

-- The addresses of the family that a prefix does not contain.
abbrev pub Excludes : Prefix → Addr → Type 0
Excludes p a = IsAddr a × (length a.ip ≡ length p.addr.ip) × (contains p a ≡ false)

-- Some address of its family is outside of a prefix that has bits.
outside_of :
    (ip : List ℕ) (zone : Bytes) (bits : ℕ)
    → IsAddr (record { ip = ip; zone = zone })
    → 1 ≤ bits
    → (a : Addr) × Excludes (record { addr = record { ip = ip; zone = zone }; bits = bits }) a
unfolding contains
outside_of [] zone bits (size, all) low = absurd (ground arith)
outside_of (x ∷ xs) zone bits (size, (small, all)) low = (
  record { ip = flip_top x ∷ xs; zone = [] },
  ((size, (flip_top-lt x small, all)), refl, rw (same_bits_flipped bits x xs low) (ground arith)),
)

outside : (p : Prefix) → IsAddr p.addr → 1 ≤ p.bits → (a : Addr) × Excludes p a
outside p formed low = outside_of p.addr.ip p.addr.zone p.bits formed low

unmap_plain : (a : Addr) → mapped_v4 a ≡ false → unmap a ≡ a
unfolding unmap
unmap_plain a h = rw h refl

bits_of_addr : (a : Addr) → IsAddr a → 1 ≤ 8 * length a.ip
bits_of_addr a (inl four, all) = omega arith
bits_of_addr a (inr sixteen, all) = omega arith

masked-Excludes : (q : Prefix) (a : Addr) → Excludes q a → Excludes (masked q) a
unfolding masked
masked-Excludes q a (formed, size, out) =
    (formed, size ∙ sym (length-mask q.bits q.addr.ip), contains-masked q a ∙ out)

module _ (lib : Parsers) (laws : ParserLaws lib) (text : Bytes) (p : Prefix)
    (h : parse_trusted_proxy lib text ≡ ok p) where
  of_addr :
      (addr : Addr)
      → (trim_space text == []) ≡ false
      → lib.parse_addr (trim_space text) ≡ some addr
      → record { addr = addr; bits = 8 * length addr.ip } ≡ p
  unfolding parse_trusted_proxy
  of_addr addr some_text good = elim (Bool-cases (mapped_v4 addr)) [
    | inl mapped ↦ absurd (ground arith)
    | inr plain ↦ ground (arith, unmap_plain addr plain)
  ]

  of_prefix :
      (q : Prefix)
      → (trim_space text == []) ≡ false
      → lib.parse_addr (trim_space text) ≡ none
      → lib.parse_prefix (trim_space text) ≡ some q
      → (masked q ≡ p) × (1 ≤ q.bits)
  unfolding parse_trusted_proxy
  of_prefix q some_text not_one good = (ground arith, ground arith)

  -- No entry of the trusted proxies that is accepted covers all addresses: of the prefix's own
  -- family some address is outside of it, if the parsers return addresses of 4 or 16 bytes.
  pub parse_trusted_proxy-Excludes : (a : Addr) × Excludes p a
  unfolding parse_trusted_proxy
  parse_trusted_proxy-Excludes = elim (Bool-cases (trim_space text == [])) [
    | inl empty ↦ absurd (ground arith)
    | inr some_text ↦ elim (Option-cases (lib.parse_addr (trim_space text))) [
      | inr (addr, good) ↦
          let formed = laws.addr_formed (trim_space text) addr good in
          subst (λ q. (a : Addr) × Excludes q a) (of_addr addr some_text good)
            (outside (record { addr = addr; bits = 8 * length addr.ip }) formed
              (bits_of_addr addr formed))
      | inl not_one ↦ elim (Option-cases (lib.parse_prefix (trim_space text))) [
        | inl bad ↦ absurd (ground arith)
        | inr (q, good) ↦
            let (same, low) = of_prefix q some_text not_one good in
            let (a, out) = outside q (laws.prefix_formed (trim_space text) q good) low in
            subst (λ r. (b : Addr) × Excludes r b) same (a, masked-Excludes q a out)
      ]
    ]
  ]
