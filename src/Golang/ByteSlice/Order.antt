-- ===== src/Golang/ByteSlice/Order.antt =====
-- The order of byte slices: slices of one length compare as the numbers that they spell.
use Prim.Native.Nat.{compare}
use native.Mathlib.Nat.{pow-suc}
use bgp_api.Base.{
  ℕ, ◌+◌, ◌*◌, ◌^◌, ◌<◌, ◌≡◌, refl, sym, ◌∙◌, arith, Bytes, IsByte, All, [], ◌∷◌, ◌++◌, length,
}
use bgp_api.Golang.Binary.{put_uint32}
use bgp_api.Golang.Binary.Words.{length-put_uint32}
use bgp_api.Golang.ByteSlice.{and_then, compare_bytes, number}

pub compare_bytes-append :
    (xs xs' ys ys' : Bytes)
    → length xs ≡ length xs'
    → compare_bytes (xs ++ ys) (xs' ++ ys') ≡ and_then (compare_bytes xs xs') (compare_bytes ys ys')
unfolding compare_bytes
compare_bytes-append [] [] ys ys' h = refl
compare_bytes-append [] (x ∷ xs') ys ys' h = absurd (omega arith)
compare_bytes-append (x ∷ xs) [] ys ys' h = absurd (omega arith)
compare_bytes-append (x ∷ xs) (x' ∷ xs') ys ys' h =
    ground (arith, compare_bytes-append xs xs' ys ys')

pub number_lt : (xs : Bytes) → All IsByte xs → number xs < 256 ^ length xs
unfolding number
number_lt [] h = omega arith
number_lt (x ∷ xs) (hx, h) = rw pow-suc (grind (arith, number_lt xs h))

digit_mono : (x y p a : ℕ) → x < y → a < p → x * p + a < y * p
digit_mono x y p a h ha = grind arith

compare_digits :
    (x y p a b : ℕ)
    → a < p
    → b < p
    → and_then (compare x y) (compare a b) ≡ compare (x * p + a) (y * p + b)
compare_digits x y p a b ha hb = ground (arith, digit_mono x y p a, digit_mono y x p b)

pub compare_bytes-number :
    (xs ys : Bytes)
    → All IsByte xs
    → All IsByte ys
    → length xs ≡ length ys
    → compare_bytes xs ys ≡ compare (number xs) (number ys)
unfolding compare_bytes number
compare_bytes-number [] [] hx hy h = refl
compare_bytes-number [] (y ∷ ys) hx hy h = absurd (omega arith)
compare_bytes-number (x ∷ xs) [] hx hy h = absurd (omega arith)
compare_bytes-number (x ∷ xs) (y ∷ ys) (hx, hxs) (hy, hys) h =
    let e : length xs ≡ length ys = omega arith in
    let ny : number ys < 256 ^ length xs = rw e (number_lt ys hys) in
    rw (← e, compare_bytes-number xs ys hxs hys e)
      (compare_digits x y (256 ^ length xs) (number xs) (number ys) (number_lt xs hxs) ny)

number-put_uint32 : (v : ℕ) → v < 2 ^ 32 → number (put_uint32 v) ≡ v
unfolding number put_uint32
number-put_uint32 v h = omega arith

pub put_uint32-IsByte : (v : ℕ) → All IsByte (put_uint32 v)
unfolding put_uint32
put_uint32-IsByte v = omega arith

pub compare_bytes-put_uint32 :
    (v w : ℕ) → v < 2 ^ 32 → w < 2 ^ 32 → compare_bytes (put_uint32 v) (put_uint32 w) ≡ compare v w
compare_bytes-put_uint32 v w hv hw =
    compare_bytes-number (put_uint32 v) (put_uint32 w) (put_uint32-IsByte v) (put_uint32-IsByte w)
      (length-put_uint32 v ∙ sym (length-put_uint32 w))
    ∙ rw (number-put_uint32 v hv, number-put_uint32 w hw)
