-- ===== src/Boltstore/Keys/Prefixes.antt =====
-- internal/boltstore/store.go and build.go: the key of a prefix, its layout and what reads it back.
use bgp_api.Base.{
  ℕ, suc, ◌-◌, ◌*◌, ◌/◌, ◌%◌, ◌^◌, ◌<◌, ◌≤◌, ◌≡◌, refl, sym, ap, ◌∙◌, ◌⊎◌, inl, inr, arith, Bytes,
  [], ◌∷◌, ◌++◌, length, length-append, length-drop, replicate, take, le→ltb, if◌then◌else◌, some,
  append_assoc, get_or,
}
use native.Mathlib.Nat.{mul-div_cancel, one-le-pow}
use bgp_api.Golang.ByteSlice.Write.{take_exact}
use bgp_api.Golang.Netip.{
  Addr, v4, v6, is4, unmap, bit_len, mapped_prefix, Prefix, masked, masked_addr, clear_from,
}
use bgp_api.Boltstore.Decoder.{ok}
use bgp_api.Boltstore.Keys.{
  Address, place, addr, address_from_addr, put_prefix_key, prefix_key, prefix_key_size,
  prefix_from_route_index_key,
}
use bgp_api.Boltstore.Keys.Write.{written, write_three_lem}

-- An address of the size that its version has, and a length that it can have.
abbrev pub IsAddr : Addr → Type 0
IsAddr (v4 bytes) = length bytes ≡ 4
IsAddr (v6 bytes zone) = length bytes ≡ 16

pub record IsPrefix (p : Prefix) : Type 0 where
  pub address : IsAddr p.addr
  pub bits : p.bits ≤ bit_len p.addr

length-clear_from : (n : ℕ) (bs : Bytes) → length (clear_from n bs) ≡ length bs
unfolding clear_from
length-clear_from n [] = refl
length-clear_from n (b ∷ bs) = ap suc (length-clear_from (n - 8) bs)

mask_twice : (b m : ℕ) → 0 < m → b / m * m / m * m ≡ b / m * m
mask_twice b m h = ap (λ t. t * m) (mul-div_cancel (b / m) h)

clear_from_idem : (n : ℕ) (bs : Bytes) → clear_from n (clear_from n bs) ≡ clear_from n bs
unfolding clear_from
clear_from_idem n [] = refl
clear_from_idem n (b ∷ bs) = ground (
  arith,
  mask_twice b (2 ^ (8 - n)) (one-le-pow (8 - n) 2 (omega arith)),
  clear_from_idem (n - 8) bs,
)

-- Whole bytes in front of the cut stay.
clear_from-append :
    (n : ℕ) (front bs : Bytes)
    → 8 * length front ≤ n
    → clear_from n (front ++ bs) ≡ front ++ clear_from (n - 8 * length front) bs
unfolding clear_from
clear_from-append n [] bs h = ap (λ t. clear_from t bs) (omega arith)
clear_from-append n (x ∷ front) bs h =
    let e : n - 8 - 8 * length front ≡ n - 8 * suc (length front) = omega arith in
    rw (← e) (ground (arith, clear_from-append (n - 8) front bs))

pub masked-IsAddr : (a : Addr) (n : ℕ) → IsAddr a → IsAddr (masked_addr a n)
unfolding clear_from
masked-IsAddr (v4 bytes) n h = length-clear_from n bytes ∙ h
masked-IsAddr (v6 bytes zone) n h = length-clear_from n bytes ∙ h

unmap-IsAddr : (a : Addr) → IsAddr a → length (place (unmap a)) ≡ 16
unfolding unmap
unmap-IsAddr (v4 bytes) h = omega arith
unmap-IsAddr (v6 bytes zone) h = ground (arith, length-drop 12 bytes)

abbrev pub family : Addr → ℕ
family a = if is4 a then 4 else 6

is4-masked : (a : Addr) (n : ℕ) → is4 (masked_addr a n) ≡ is4 a
is4-masked (v4 bytes) n = refl
is4-masked (v6 bytes zone) n = refl

bit_len-le : (a : Addr) → bit_len a ≤ 128
bit_len-le (v4 bytes) = omega arith
bit_len-le (v6 bytes zone) = omega arith

-- The bytes of a prefix's key.
abbrev pub key_layout : Prefix → Bytes
key_layout p = family p.addr ∷ (address_from_addr (masked p).addr ++ (p.bits ∷ []))

pub length-address_from_addr : (a : Addr) → IsAddr a → length (address_from_addr a) ≡ 16
unfolding address_from_addr
length-address_from_addr a h = unmap-IsAddr a h

masked_twice : (p : Prefix) → masked (masked p) ≡ masked p
unfolding masked
masked_twice p = ap (λ a. record { addr = a; bits = p.bits }) (twice p.addr p.bits)
  where
    twice : (a : Addr) (n : ℕ) → masked_addr (masked_addr a n) n ≡ masked_addr a n
    twice (v4 bytes) n = ap v4 (clear_from_idem n bytes)
    twice (v6 bytes zone) n = ap (λ t. v6 t []) (clear_from_idem n bytes)

-- Into any buffer of at least 18 bytes, and for an address of its version's size with a length that
-- fits it, PutPrefixKey puts the family 4 or 6, the masked address and the length, whatever the
-- buffer held.
put_prefix_key_lem :
    (key : Bytes) (p : Prefix)
    → prefix_key_size ≤ length key
    → IsPrefix p
    → put_prefix_key key p ≡ ok (key_layout p)
unfolding put_prefix_key masked
put_prefix_key_lem key p hk h =
    let m = masked_addr p.addr p.bits in
    let small : p.bits % 256 ≡ p.bits = omega (arith, h.bits, bit_len-le p.addr) in
    let size = length-address_from_addr m (masked-IsAddr p.addr p.bits h.address) in
    elim (write_three_lem key (family m) (address_from_addr m) (p.bits ∷ []) size (omega arith)) [
      | written rest e l ↦
          rw (le→ltb (length key) 18 hk, small)
            (ap (λ t. ok (take 18 t))
                (e
                  ∙ ap (λ t. family m ∷ t)
                      (sym (append_assoc (address_from_addr m) (p.bits ∷ []) rest)))
              ∙ ap ok (
                  take_exact 18 (family m ∷ (address_from_addr m ++ (p.bits ∷ []))) rest
                    (omega (arith, length-append (address_from_addr m) (p.bits ∷ []))))
              ∙ ap (λ t. ok ((if t then 4 else 6) ∷ (address_from_addr m ++ (p.bits ∷ []))))
                  (is4-masked p.addr p.bits))
    ]

masked-IsPrefix : (p : Prefix) → IsPrefix p → IsPrefix (masked p)
unfolding masked
masked-IsPrefix p h = record {
  address = masked-IsAddr p.addr p.bits h.address;
  bits = keeps p.addr p.bits h.bits;
}
  where
    keeps : (a : Addr) (n : ℕ) → n ≤ bit_len a → n ≤ bit_len (masked_addr a n)
    keeps (v4 bytes) n hn = hn
    keeps (v6 bytes zone) n hn = hn

key_layout-masked : (p : Prefix) → key_layout (masked p) ≡ key_layout p
unfolding masked
key_layout-masked p =
    ap
      (λ t.
        (if t then 4 else 6)
        ∷ (address_from_addr (masked_addr (masked_addr p.addr p.bits) p.bits) ++ (p.bits ∷ [])))
      (is4-masked p.addr p.bits)
    ∙ ap (λ (q : Prefix). family p.addr ∷ (address_from_addr q.addr ++ (p.bits ∷ [])))
        (masked_twice p)

prefix_key_lem : (p : Prefix) → IsPrefix p → prefix_key p ≡ ok (key_layout p)
unfolding prefix_key
prefix_key_lem p h =
    put_prefix_key_lem (replicate 18 0) (masked p) (omega arith) (masked-IsPrefix p h)
    ∙ ap ok (key_layout-masked p)

-- A prefix of IPv4-mapped addresses and the one of IPv4-compatible addresses beside it.
abbrev pub mapped : Bytes → ℕ → Prefix
mapped tail bits = record { addr = v6 (mapped_prefix ++ tail) []; bits = bits }

abbrev pub compatible : Bytes → ℕ → Prefix
compatible tail bits = record { addr = v6 (replicate 12 0 ++ tail) []; bits = bits }

address-mapped : (r : Bytes) → address_from_addr (v6 (mapped_prefix ++ r) []) ≡ replicate 12 0 ++ r
unfolding address_from_addr
address-mapped r = refl

address-compatible :
    (r : Bytes) → address_from_addr (v6 (replicate 12 0 ++ r) []) ≡ replicate 12 0 ++ r
unfolding address_from_addr
address-compatible r = refl

key_layout_collision :
    (tail : Bytes) (bits : ℕ)
    → 96 ≤ bits
    → key_layout (mapped tail bits) ≡ key_layout (compatible tail bits)
unfolding masked
key_layout_collision tail bits h =
    let place_of : Bytes → Bytes = λ t. 6 ∷ (address_from_addr (v6 t []) ++ (bits ∷ [])) in
    let behind : Bytes → Bytes = λ t. 6 ∷ (t ++ (bits ∷ [])) in
    let r = clear_from (bits - 96) tail in
    ap place_of (clear_from-append bits mapped_prefix tail h)
    ∙ ap behind (address-mapped r ∙ sym (address-compatible r))
    ∙ ap place_of (sym (clear_from-append bits (replicate 12 0) tail h))

-- For every four-byte tail and every length from 96 to 128, PrefixKey gives an IPv6 prefix of
-- IPv4-mapped addresses the key of the IPv4-compatible prefix with the same tail.
pub prefix_key_collision :
    (tail : Bytes) (bits : ℕ)
    → length tail ≡ 4
    → 96 ≤ bits
    → bits ≤ 128
    → prefix_key (mapped tail bits) ≡ prefix_key (compatible tail bits)
prefix_key_collision tail bits hl lo hi =
    prefix_key_lem (mapped tail bits) (record { address = omega arith; bits = hi })
    ∙ ap ok (key_layout_collision tail bits lo)
    ∙ sym (prefix_key_lem (compatible tail bits) (record { address = omega arith; bits = hi }))

-- An address of the kind that its key tells apart from all others.
abbrev IsPlain : Addr → Type 0
IsPlain a = unmap a ≡ a

addr-address :
    (a : Addr) (n : ℕ)
    → IsAddr a
    → IsPlain (masked_addr a n)
    → addr (address_from_addr (masked_addr a n)) (family a) ≡ masked_addr a n
unfolding addr address_from_addr
addr-address (v4 bytes) n h plain = refl
addr-address (v6 bytes zone) n h plain = rw plain refl

get_or-append : (front bs : Bytes) (b n : ℕ) → length front ≡ n → get_or (front ++ (b ∷ bs)) n 0 ≡ b
get_or-append [] bs b n h = rw (← h)
get_or-append (x ∷ front) bs b n h = rw (← h) (get_or-append front bs b (length front) refl)

read_layout :
    (version bits : ℕ) (a : Address)
    → length a ≡ 16
    → ((version ≡ 4) × (bits ≤ 32)) ⊎ ((version ≡ 6) × (bits ≤ 128))
    → prefix_from_route_index_key (version ∷ (a ++ (bits ∷ [])))
      ≡ some (masked (record { addr = addr a version; bits = bits }))
unfolding prefix_from_route_index_key
read_layout version bits a ha hv =
    rw (get_or-append a [] bits 16 ha, take_exact 16 a (bits ∷ []) ha)
      (ground (arith, length-append a (bits ∷ [])))

family_bits :
    (a : Addr) (n : ℕ) → n ≤ bit_len a → ((family a ≡ 4) × (n ≤ 32)) ⊎ ((family a ≡ 6) × (n ≤ 128))
family_bits (v4 bytes) n h = inl (refl, h)
family_bits (v6 bytes zone) n h = inr (refl, h)

-- From the key that PrefixKey makes, prefixFromRouteIndexKey reads back the masked prefix; for an
-- address of its version's size with a length that fits it, whose masked form is not IPv4-mapped.
pub prefix_from_route_index_key-prefix_key :
    (p : Prefix) {key : Bytes}
    → IsPrefix p
    → IsPlain (masked p).addr
    → prefix_key p ≡ ok key
    → prefix_from_route_index_key key ≡ some (masked p)
unfolding masked
prefix_from_route_index_key-prefix_key p {key} h plain hk =
    let m = masked_addr p.addr p.bits in
    let e : key ≡ key_layout p = cc (prefix_key_lem p h) in
    let size = length-address_from_addr m (masked-IsAddr p.addr p.bits h.address) in
    rw e (
      read_layout (family p.addr) p.bits (address_from_addr m) size
        (family_bits p.addr p.bits h.bits))
    ∙ ap (λ a. some (masked (record { addr = a; bits = p.bits })))
        (addr-address p.addr p.bits h.address plain)
    ∙ ap some (masked_twice p)
