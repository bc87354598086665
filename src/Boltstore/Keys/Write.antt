-- ===== src/Boltstore/Keys/Write.antt =====
-- internal/boltstore/store.go: the copies that fill a key's buffer.
use bgp_api.Base.{
  ℕ, ◌+◌, ◌≤◌, ◌≡◌, refl, sym, ap, ◌∙◌, arith, Bytes, [], ◌∷◌, ◌++◌, length, length-append,
  append_assoc, drop, drop,
}
use bgp_api.Golang.Binary.{put_uint32}
use bgp_api.Golang.Binary.Words.{length-put_uint32}
use bgp_api.Golang.ByteSlice.{write_at}
use bgp_api.Golang.ByteSlice.Write.{write_at_lem, Cut, cut, Cut-at, drop_exact}

-- One byte, sixteen bytes and a third part, whatever the buffer held.
abbrev pub write_three : Bytes → ℕ → Bytes → Bytes → Bytes
write_three key tag address part = write_at 17 part (write_at 1 address (write_at 0 (tag ∷ []) key))

write_three_parts :
    (k0 k1 k2 rest : Bytes) (tag : ℕ) (address part : Bytes)
    → length k0 ≡ 1
    → length k1 ≡ 16
    → length k2 ≡ length part
    → length address ≡ 16
    → write_three (k0 ++ (k1 ++ (k2 ++ rest))) tag address part ≡ tag ∷ (address ++ (part ++ rest))
write_three_parts k0 k1 k2 rest tag address part h0 h1 h2 ha =
    ap (λ t. write_at 17 part (write_at 1 address t))
      (write_at_lem 0 [] k0 (tag ∷ []) (k1 ++ (k2 ++ rest)) refl h0)
    ∙ ap (λ t. write_at 17 part t)
        (write_at_lem 1 (tag ∷ []) k1 address (k2 ++ rest) refl (h1 ∙ sym ha))
    ∙ write_at_lem 17 (tag ∷ address) k2 part rest (omega arith) h2

-- What the buffer holds behind the three parts.
pub data Written (key : Bytes) (tag : ℕ) (address part : Bytes) : Type 0 where
  written :
      (rest : Bytes)
      → write_three key tag address part ≡ tag ∷ (address ++ (part ++ rest))
      → length key ≡ 17 + length part + length rest
      → Written key tag address part

Written-after :
    (key k0 r0 : Bytes) (tag : ℕ) (address part : Bytes)
    → length address ≡ 16
    → 17 + length part ≤ length key
    → key ≡ k0 ++ r0
    → length k0 ≡ 1
    → Cut 16 r0
    → Written key tag address part
Written-after key k0 r0 tag address part ha hk e0 l0 (cut k1 r1 e1 l1) =
    let s0 : length key ≡ 1 + length r0 = omega (arith, ap length e0, length-append k0 r0) in
    let s1 : length r0 ≡ 16 + length r1 = omega (arith, ap length e1, length-append k1 r1) in
    elim (Cut-at (length part) r1 (omega arith)) [
      | cut k2 rest e2 l2 ↦
          written rest
            (rw (e0, e1, e2) (write_three_parts k0 k1 k2 rest tag address part l0 l1 l2 ha))
            (omega (arith, ap length e2, length-append k2 rest))
    ]

pub write_three_lem :
    (key : Bytes) (tag : ℕ) (address part : Bytes)
    → length address ≡ 16
    → 17 + length part ≤ length key
    → Written key tag address part
write_three_lem key tag address part ha hk = elim (Cut-at 1 key (omega arith)) [
  | cut k0 r0 e0 l0 ↦
      Written-after key k0 r0 tag address part ha hk e0 l0
        (Cut-at 16 r0 (omega (arith, ap length e0, length-append k0 r0)))
]

-- The ID behind the three parts of a range key.
pub write_fourth :
    (tag : ℕ) (address part rest : Bytes) (id : ℕ)
    → length address ≡ 16
    → length part ≡ 16
    → Cut 4 rest
    → write_at 33 (put_uint32 id) (tag ∷ (address ++ (part ++ rest)))
      ≡ (tag ∷ (address ++ (part ++ put_uint32 id))) ++ drop 4 rest
write_fourth tag address part rest id ha hp (cut k3 back e l) =
    let front = tag ∷ (address ++ part) in
    let step =
      write_at_lem 33 front k3 (put_uint32 id) back (omega (arith, length-append address part))
        (l ∙ sym (length-put_uint32 id)) in
    let back_eq : drop 4 rest ≡ back = rw e (drop_exact 4 k3 back l) in
    rw (back_eq, e, ← append_assoc address part (k3 ++ back)) (step ∙ simp append_assoc)
