-- ===== src/Golang/ByteSlice/Total.antt =====
-- Package bytes: the order of byte slices is total.
use Prim.Native.Nat.{compare, Ordering}
use bgp_api.Base.{ℕ, ◌≡◌, ◌≢◌, refl, arith, Bytes, [], ◌∷◌}
use bgp_api.Golang.ByteSlice.{compare_bytes, and_then}

-- The comparison from the other side.
abbrev pub flip : Ordering → Ordering
flip Ordering.lt = Ordering.gt
flip Ordering.eq = Ordering.eq
flip Ordering.gt = Ordering.lt

pub compare-flip : (x y : ℕ) → compare y x ≡ flip (compare x y)
compare-flip x y = ground arith

pub and_then-flip : (o p : Ordering) → and_then (flip o) (flip p) ≡ flip (and_then o p)
and_then-flip Ordering.lt p = refl
and_then-flip Ordering.eq p = refl
and_then-flip Ordering.gt p = refl

pub compare_bytes-flip : (a b : Bytes) → compare_bytes b a ≡ flip (compare_bytes a b)
unfolding compare_bytes
compare_bytes-flip [] [] = refl
compare_bytes-flip [] (y ∷ b) = refl
compare_bytes-flip (x ∷ a) [] = refl
compare_bytes-flip (x ∷ a) (y ∷ b) =
    rw (compare-flip x y, compare_bytes-flip a b) (and_then-flip (compare x y) (compare_bytes a b))

-- Three comparisons that fit: if the second is not above the third and the first is, it is above the
-- second; equal ones can take each other's place.
pub record Fits (xy yz xz : Ordering) : Type 0 where
  pub above : yz ≢ Ordering.gt → xz ≡ Ordering.gt → xy ≡ Ordering.gt
  pub same_left : xy ≡ Ordering.eq → xz ≡ yz
  pub same_right : yz ≡ Ordering.eq → xz ≡ xy
  pub below : xy ≡ Ordering.lt → yz ≡ Ordering.lt → xz ≡ Ordering.lt
  pub over : xy ≡ Ordering.gt → yz ≡ Ordering.gt → xz ≡ Ordering.gt

pub compare-Fits : (x y z : ℕ) → Fits (compare x y) (compare y z) (compare x z)
compare-Fits x y z = record {
  above = λ h k. ground arith;
  same_left = λ h. ground arith;
  same_right = λ h. ground arith;
  below = λ h k. ground arith;
  over = λ h k. ground arith;
}

Fits-left : (d o : Ordering) → o ≢ Ordering.eq → Fits d o o
Fits-left d o n = record {
  above = λ h k. absurd (h k);
  same_left = λ h. refl;
  same_right = λ h. absurd (n h);
  below = λ h k. k;
  over = λ h k. k;
}

Fits-right : (o e : Ordering) → o ≢ Ordering.eq → Fits o e o
Fits-right o e n = record {
  above = λ h k. k;
  same_left = λ h. absurd (n h);
  same_right = λ h. refl;
  below = λ h k. h;
  over = λ h k. h;
}

Fits-lt_gt : (o : Ordering) → Fits Ordering.lt Ordering.gt o
Fits-lt_gt o = record {
  above = λ h k. absurd (h refl);
  same_left = λ h. cc;
  same_right = λ h. cc;
  below = λ h k. cc;
  over = λ h k. cc;
}

Fits-gt_lt : (o : Ordering) → Fits Ordering.gt Ordering.lt o
Fits-gt_lt o = record {
  above = λ h k. refl;
  same_left = λ h. cc;
  same_right = λ h. cc;
  below = λ h k. cc;
  over = λ h k. cc;
}

pub and_then-Fits :
    (a b c d e f : Ordering)
    → Fits a b c
    → Fits d e f
    → Fits (and_then a d) (and_then b e) (and_then c f)
and_then-Fits Ordering.lt Ordering.lt c d e f h k =
    rw (h.below refl refl) (Fits-left Ordering.lt Ordering.lt (λ p. cc))
and_then-Fits Ordering.lt Ordering.eq c d e f h k =
    rw (h.same_right refl) (Fits-right Ordering.lt e (λ p. cc))
and_then-Fits Ordering.lt Ordering.gt c d e f h k = Fits-lt_gt (and_then c f)
and_then-Fits Ordering.eq Ordering.lt c d e f h k =
    rw (h.same_left refl) (Fits-left d Ordering.lt (λ p. cc))
and_then-Fits Ordering.eq Ordering.eq c d e f h k = rw (h.same_left refl) k
and_then-Fits Ordering.eq Ordering.gt c d e f h k =
    rw (h.same_left refl) (Fits-left d Ordering.gt (λ p. cc))
and_then-Fits Ordering.gt Ordering.lt c d e f h k = Fits-gt_lt (and_then c f)
and_then-Fits Ordering.gt Ordering.eq c d e f h k =
    rw (h.same_right refl) (Fits-right Ordering.gt e (λ p. cc))
and_then-Fits Ordering.gt Ordering.gt c d e f h k =
    rw (h.over refl refl) (Fits-left Ordering.gt Ordering.gt (λ p. cc))

Fits-eq : Fits Ordering.eq Ordering.eq Ordering.eq
Fits-eq = record {
  above = λ h k. k;
  same_left = λ h. refl;
  same_right = λ h. refl;
  below = λ h k. h;
  over = λ h k. h;
}

pub compare_bytes-Fits :
    (a b c : Bytes) → Fits (compare_bytes a b) (compare_bytes b c) (compare_bytes a c)
unfolding compare_bytes
compare_bytes-Fits [] [] [] = Fits-eq
compare_bytes-Fits [] [] (z ∷ c) = Fits-left Ordering.eq Ordering.lt (λ p. cc)
compare_bytes-Fits [] (y ∷ b) [] = Fits-lt_gt Ordering.eq
compare_bytes-Fits [] (y ∷ b) (z ∷ c) =
    Fits-right Ordering.lt (compare_bytes (y ∷ b) (z ∷ c)) (λ p. cc)
compare_bytes-Fits (x ∷ a) [] [] = Fits-right Ordering.gt Ordering.eq (λ p. cc)
compare_bytes-Fits (x ∷ a) [] (z ∷ c) = Fits-gt_lt (compare_bytes (x ∷ a) (z ∷ c))
compare_bytes-Fits (x ∷ a) (y ∷ b) [] =
    Fits-left (compare_bytes (x ∷ a) (y ∷ b)) Ordering.gt (λ p. cc)
compare_bytes-Fits (x ∷ a) (y ∷ b) (z ∷ c) =
    and_then-Fits (compare x y) (compare y z) (compare x z) (compare_bytes a b) (compare_bytes b c)
      (compare_bytes a c) (compare-Fits x y z) (compare_bytes-Fits a b c)

pub compare_bytes-eq : (a b : Bytes) → compare_bytes a b ≡ Ordering.eq → a ≡ b
unfolding compare_bytes
compare_bytes-eq [] [] h = refl
compare_bytes-eq [] (y ∷ b) h = cc
compare_bytes-eq (x ∷ a) [] h = cc
compare_bytes-eq (x ∷ a) (y ∷ b) h =
    let p : (x ≡ y) × (compare_bytes a b ≡ Ordering.eq) = ground arith in
    rw (p.0, compare_bytes-eq a b p.1) refl
