-- ===== src/Boltstore/Selection/Width.antt =====
-- internal/boltstore/selection_lpm.go: the width that candidates are ordered by.
use native.Mathlib.Nat.{pow-suc}
use bgp_api.Base.{
  ℕ, ◌+◌, ◌*◌, ◌-◌, ◌%◌, ◌^◌, ◌≤◌, ◌<◌, ◌≡◌, refl, sym, ap, ◌∙◌, suc, arith, Bytes, IsByte, All, [],
  ◌∷◌, length,
}
use bgp_api.Golang.ByteSlice.{number}
use bgp_api.Golang.ByteSlice.Order.{number_lt}
use bgp_api.Boltstore.Keys.{Address}
use bgp_api.Boltstore.Keys.Order.{IsAddress}
use bgp_api.Boltstore.Selection.{selection_range_width, subtract_bytes, subtract_byte}

-- A difference of byte slices, with the borrow that is left.
record Difference (es ss ds : Bytes) (borrow : ℕ) : Type 0 where
  size : length ds ≡ length es
  bytes : All IsByte ds
  borrow_le : borrow ≤ 1
  sum : number es + borrow * 256 ^ length es ≡ number ss + number ds

record Round (e s borrow d borrow' : ℕ) : Type 0 where
  byte : d < 256
  borrow_le : borrow' ≤ 1
  sum : e + borrow' * 256 ≡ s + borrow + d

subtract_byte-Round :
    (e s borrow : ℕ)
    → e < 256
    → s < 256
    → borrow ≤ 1
    → Round e s borrow (subtract_byte e s borrow).0 (subtract_byte e s borrow).1
subtract_byte-Round e s borrow he hs hb = record {
  byte = ground arith;
  borrow_le = ground arith;
  sum = ground arith;
}

carry :
    (e s d b b' p ne ns nd : ℕ)
    → e + b' * 256 ≡ s + b + d
    → ne + b * p ≡ ns + nd
    → (e * p + ne) + b' * (p * 256) ≡ (s * p + ns) + (d * p + nd)
carry e s d b b' p ne ns nd h hr =
    let k : (e + b' * 256) * p ≡ (s + b + d) * p = ap (λ t. t * p) h in grind arith

subtract_bytes-Difference :
    (es ss : Bytes)
    → All IsByte es
    → All IsByte ss
    → length es ≡ length ss
    → Difference es ss (subtract_bytes es ss).0 (subtract_bytes es ss).1
unfolding subtract_bytes number
subtract_bytes-Difference [] [] he hs hl = record {
  size = refl;
  bytes = tt;
  borrow_le = omega arith;
  sum = omega arith;
}
subtract_bytes-Difference [] (s ∷ ss) he hs hl = absurd (omega arith)
subtract_bytes-Difference (e ∷ es) [] he hs hl = absurd (omega arith)
subtract_bytes-Difference (e ∷ es) (s ∷ ss) he hs hl =
    let rest = subtract_bytes-Difference es ss he.1 hs.1 (omega arith) in
    let round = subtract_byte-Round e s (subtract_bytes es ss).1 he.0 hs.0 rest.borrow_le in
    let same : length ss ≡ length es = omega arith in
    record {
      size = ap suc rest.size;
      bytes = (round.byte, rest.bytes);
      borrow_le = round.borrow_le;
      sum =
          rw (same, rest.size, pow-suc 256 (length es))
            (carry e s _ _ _ _ _ _ _ round.sum rest.sum);
    }

wrapped :
    (e s d b : ℕ)
    → e < 2 ^ 128
    → s < 2 ^ 128
    → d < 2 ^ 128
    → b ≤ 1
    → e + b * 2 ^ 128 ≡ s + d
    → d ≡ (e + 2 ^ 128 - s) % 2 ^ 128
wrapped e s d b he hs hd hb h = omega arith

-- For addresses of sixteen bytes, selectionRangeWidth gives end minus start modulo 2 ^ 128.
pub number-selection_range_width :
    (start end : Address)
    → IsAddress start
    → IsAddress end
    → number (selection_range_width start end) ≡ (number end + 2 ^ 128 - number start) % 2 ^ 128
unfolding selection_range_width
number-selection_range_width start end hs he =
    let d = subtract_bytes-Difference end start he.bytes hs.bytes (he.size ∙ sym hs.size) in
    let below_end : number end < 2 ^ 128 = rw he.size at (number_lt end he.bytes) in
    let below_start : number start < 2 ^ 128 = rw hs.size at (number_lt start hs.bytes) in
    let below : number (subtract_bytes end start).0 < 2 ^ 128 =
      rw (d.size, he.size) at (number_lt (subtract_bytes end start).0 d.bytes) in
    let total : number end + (subtract_bytes end start).1 * 2 ^ 128
        ≡ number start + number (subtract_bytes end start).0 =
      rw he.size at d.sum in
    wrapped (number end) (number start) _ _ below_end below_start below d.borrow_le total

pub selection_range_width-IsAddress :
    (start end : Address)
    → IsAddress start
    → IsAddress end
    → IsAddress (selection_range_width start end)
unfolding selection_range_width
selection_range_width-IsAddress start end hs he =
    let d = subtract_bytes-Difference end start he.bytes hs.bytes (he.size ∙ sym hs.size) in
    record { size = d.size ∙ he.size; bytes = d.bytes }
