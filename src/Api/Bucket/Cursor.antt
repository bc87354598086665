-- ===== src/Api/Bucket/Cursor.antt =====
-- A cursor of bbolt that has been moved by Seek and Next stands at the head of the keys that are left.
use Prim.Native.Nat.{Ordering}
use bgp_api.Base.{◌≡◌, refl, ◌∙◌, ap, arith, Bytes, List, [], ◌∷◌, All, length, ◌≤◌}
use bgp_api.Golang.ByteSlice.{compare_bytes}
use bgp_api.Golang.ByteSlice.Total.{flip, compare_bytes-flip}
use bgp_api.Api.Bucket.{Bucket}
use bgp_api.Api.Bucket.Contents.{head, from, behind, Ascending, Holds}

-- The end of a list.
pub data Suffix : List Bytes → List Bytes → Type 0 where
  whole : {ks : List Bytes} → Suffix ks ks
  shorter : {k : Bytes} {ss ks : List Bytes} → Suffix ss ks → Suffix ss (k ∷ ks)

pub Suffix-tail : {k : Bytes} {ss ks : List Bytes} → Suffix (k ∷ ss) ks → Suffix ss ks
Suffix-tail whole = shorter whole
Suffix-tail (shorter s) = shorter (Suffix-tail s)

pub from-Suffix : (key : Bytes) (ks : List Bytes) → Suffix (from key ks) ks
unfolding from
from-Suffix key [] = whole
from-Suffix key (k ∷ ks) =
    elim (compare_bytes k key)
      as (λ o. Suffix (elim o [ Ordering.lt ↦ from key ks | _ ↦ k ∷ ks ]) (k ∷ ks)) [
        | Ordering.lt ↦ shorter (from-Suffix key ks)
        | Ordering.eq ↦ whole
        | Ordering.gt ↦ whole
      ]

pub compare_bytes_refl : (k : Bytes) → compare_bytes k k ≡ Ordering.eq
unfolding compare_bytes
compare_bytes_refl [] = refl
compare_bytes_refl (x ∷ k) = ground (arith, compare_bytes_refl k)

All-Suffix :
    (P : Bytes → Type 0) {k : Bytes} {ss ks : List Bytes} → Suffix (k ∷ ss) ks → All P ks → P k
All-Suffix P whole h = h.0
All-Suffix P (shorter s) h = All-Suffix P s h.1

behind-All :
    (k : Bytes) (ks : List Bytes) → All (λ l. compare_bytes k l ≡ Ordering.lt) ks → behind k ks ≡ ks
unfolding behind
behind-All k [] h = refl
behind-All k (l ∷ ks) h =
    let e : compare_bytes l k ≡ Ordering.gt = compare_bytes-flip k l ∙ ap flip h.0 in
    rw (e, behind) refl

-- The keys behind the head of an end of the list are its tail.
pub behind-Suffix :
    {k : Bytes} {ss : List Bytes} (ks : List Bytes)
    → Ascending ks
    → Suffix (k ∷ ss) ks
    → behind k ks ≡ ss
unfolding behind
behind-Suffix {k} {ss} [] h s = elim s [ ]
behind-Suffix {k} {ss} (k' ∷ ks) h whole =
    let e : compare_bytes k k ≡ Ordering.eq = compare_bytes_refl k in
    rw (e, behind) (behind-All k ks h.0)
behind-Suffix {k} {ss} (j ∷ ks) h (shorter s) =
    let e : compare_bytes j k ≡ Ordering.lt =
      All-Suffix (λ l. compare_bytes j l ≡ Ordering.lt) s h.0 in
    rw (e, behind) (behind-Suffix ks h.1 s)

pub next-Suffix :
    {b : Bucket} {keys : List Bytes} {k : Bytes} {ss : List Bytes}
    → Holds b keys
    → Suffix (k ∷ ss) keys
    → b.next k ≡ head ss
next-Suffix {b} {keys} {k} {ss} h s = h.next k ∙ ap head (behind-Suffix keys h.ascending s)

-- A key that is held is the first one not below itself.
from-head :
    {k : Bytes} {ss : List Bytes} (ks : List Bytes)
    → Ascending ks
    → Suffix (k ∷ ss) ks
    → from k ks ≡ k ∷ ss
unfolding from
from-head {k} {ss} [] h s = elim s [ ]
from-head {k} {ss} (k' ∷ ks) h whole =
    let e : compare_bytes k k ≡ Ordering.eq = compare_bytes_refl k in rw (e, from) refl
from-head {k} {ss} (j ∷ ks) h (shorter s) =
    let e : compare_bytes j k ≡ Ordering.lt =
      All-Suffix (λ l. compare_bytes j l ≡ Ordering.lt) s h.0 in
    rw (e, from) (from-head ks h.1 s)

pub length-Suffix : {ss ks : List Bytes} → Suffix ss ks → length ss ≤ length ks
length-Suffix whole = omega arith
length-Suffix (shorter s) = omega (arith, length-Suffix s)
