-- ===== src/Golang/ByteSlice/Write.antt =====
-- Writes into a slice replace the bytes at their place, and nothing else.
use bgp_api.Base.{
  ℕ, zero, suc, ◌+◌, ◌≤◌, ◌≡◌, refl, ap, arith, Bytes, [], ◌∷◌, ◌++◌, length, length-append, take,
  drop, take-append, drop-append, append_assoc,
}
use bgp_api.Golang.ByteSlice.{write_at}

pub write_at_lem :
    (k : ℕ) (front mid src back : Bytes)
    → length front ≡ k
    → length mid ≡ length src
    → write_at k src (front ++ (mid ++ back)) ≡ front ++ (src ++ back)
unfolding write_at
write_at_lem k front mid src back hk hm =
    let e : drop (length front + length src) (front ++ (mid ++ back)) ≡ back =
      rw (length-append, append_assoc, hm) at (drop-append (front ++ mid) back) in
    rw (← hk, e, take-append)

-- A slice, cut behind its first `n` bytes.
pub data Cut (n : ℕ) (xs : Bytes) : Type 0 where
  cut : (front back : Bytes) → xs ≡ front ++ back → length front ≡ n → Cut n xs

pub Cut-at : (n : ℕ) (xs : Bytes) → n ≤ length xs → Cut n xs
Cut-at zero xs h = cut [] xs refl refl
Cut-at (suc n) [] h = absurd (omega arith)
Cut-at (suc n) (x ∷ xs) h = elim (Cut-at n xs (omega arith)) [
  | cut front back e l ↦ cut (x ∷ front) back (ap (λ t. x ∷ t) e) (omega arith)
]

pub take_exact : (n : ℕ) (xs back : Bytes) → length xs ≡ n → take n (xs ++ back) ≡ xs
take_exact n xs back h = rw (← h) (take-append xs back)

pub drop_exact : (n : ℕ) (xs back : Bytes) → length xs ≡ n → drop n (xs ++ back) ≡ back
drop_exact n xs back h = rw (← h) (drop-append xs back)
