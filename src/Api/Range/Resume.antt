-- ===== src/Api/Range/Resume.antt =====
-- internal/api/bbolt.go: a page of a range bucket starts behind the page before it.
use bgp_api.Base.{
  ℕ, zero, suc, ◌<◌, ◌≡◌, ◌⊎◌, inl, inr, refl, sym, ◌∙◌, ap, arith, Bytes, Bool, true, false, List,
  [], ◌∷◌, length, drop, ltb, Option, none, some, Bool-cases, get_elem?, replicate,
}
use mathlib.Core.Option.{some-injective}
use bgp_api.Golang.ByteSlice.{bytes_equal}
use bgp_api.Golang.ByteSlice.Total.{compare_bytes-eq}
use bgp_api.Boltstore.Decoder.{Result}
use bgp_api.Boltstore.Keys.{Address, range_index_start_key}
use bgp_api.Api.Reply.{ok, ◌>>=◌, of_result}
use bgp_api.Api.Bucket.{Bucket, key_of}
use bgp_api.Api.Bucket.Contents.{head, from, behind, Holds}
use bgp_api.Api.Bucket.Cursor.{
  Suffix, Suffix-tail, behind-Suffix, from-Suffix, compare_bytes_refl, length-Suffix,
}
use bgp_api.Api.Range.Direct.{direct_loop, seek_key, first_key, direct_range_entries}
use bgp_api.Api.Range.Pages.{inside, covered, page_of, direct_loop-page}

-- Either the first key that is not below `key` is `key`, or it is above it.
from_cases :
    (key : Bytes) (ks : List Bytes)
    → (from key ks ≡ behind key ks) ⊎ (key_of (head (from key ks)) ≡ key)
unfolding from behind
from_cases key [] = inl refl
from_cases key (k ∷ ks) = ground (arith, from_cases key ks, compare_bytes-eq k key)

bytes_equal-eq : (a b : Bytes) → bytes_equal a b ≡ true → a ≡ b
bytes_equal-eq a b h = compare_bytes-eq a b (ground (arith, h))

bytes_equal_refl : (a : Bytes) → bytes_equal a a ≡ true
bytes_equal_refl a = ground (arith, compare_bytes_refl a)

-- A page that follows another one starts at the first key above the last key of that one.
first_key-some :
    {b : Bucket} {keys : List Bytes} (key : Bytes)
    → Holds b keys
    → first_key b (some key) key ≡ head (behind key keys)
first_key-some {b} {keys} key h = ground (
  arith,
  from_cases key keys,
  h.seek key,
  h.next key,
  compare_bytes-eq (key_of (b.seek key)) key,
  compare_bytes_refl key,
)

suffix-behind :
    (version : ℕ) (end : Address) (ss ks : List Bytes) (n : ℕ) (key : Bytes)
    → Suffix ss ks
    → get_elem? (covered version end ss) n ≡ some key
    → (rest : List Bytes) × Suffix (key ∷ rest) ks
      × (covered version end rest ≡ drop (suc n) (covered version end ss))
unfolding covered
suffix-behind version end [] ks n key s h = let bad : none ≡ some key = h in absurd (cc)
suffix-behind version end (k ∷ ss) ks zero key s h = elim (Bool-cases (inside version end k)) [
  | inr e ↦ let bad : none ≡ some key = simp (covered, e) at h in absurd (cc)
  | inl e ↦
      let same : some k ≡ some key = simp (covered, e) at h in
      let same' : k ≡ key = some-injective _ _ same in
      (ss, rw (sym same') s, simp (covered, e) refl)
]
suffix-behind version end (k ∷ ss) ks (suc n) key s h = elim (Bool-cases (inside version end k)) [
  | inr e ↦ let bad : none ≡ some key = simp (covered, e) at h in absurd (cc)
  | inl e ↦
      let h' : get_elem? (covered version end ss) n ≡ some key = simp (covered, e) at h in
      let (rest, s', e') = suffix-behind version end ss ks n key (Suffix-tail s) h' in
      (rest, s', e' ∙ simp (covered, e) refl)
]

of_result-ok : {A : Type 0} {r : Result A} {a : A} → r ≡ Result.ok a → of_result r ≡ ok a
unfolding of_result
of_result-ok {r = r} h = rw h refl

direct_range_entries-from :
    (fuel : ℕ) (ctx : ℕ → Bool) (b : Bucket) (version : ℕ) (start end : Address)
    (after : Option Bytes) (seek : Bytes) (m : ℕ)
    → seek_key version start after ≡ ok seek
    → direct_range_entries fuel ctx b version start end after (suc m)
      ≡ direct_loop fuel ctx b version end (suc m) 0 (first_key b after seek)
unfolding direct_range_entries ◌>>=◌
direct_range_entries-from fuel ctx b version start end after seek m h =
    let e : ltb (suc m) 1 ≡ false = ground arith in simp (direct_range_entries, h, e, ◌>>=◌) refl

-- With enough fuel and a context that does not end, the pages of a range bucket follow one another: the
-- first page of the range that starts at `start` has the first entries, as many as fit, of the keys from
-- the start key on up to the first one outside the range; the page that is asked for with the last key
-- of that page has the entries behind those. Each page tells whether it is full.
pub direct_range_entries-page :
    {b : Bucket} {keys : List Bytes} (fuel : ℕ) (ctx : ℕ → Bool) (version : ℕ) (start end : Address)
    (seek key : Bytes) (m n : ℕ)
    → Holds b keys
    → length keys < fuel
    → ((i : ℕ) → ctx i ≡ false)
    → range_index_start_key (replicate 37 0) version start ≡ Result.ok seek
    → (direct_range_entries fuel ctx b version start end none (suc m)
        ≡ ok (page_of (suc m) (covered version end (from seek keys))))
      × (get_elem? (covered version end (from seek keys)) m ≡ some key
          → direct_range_entries fuel ctx b version start end (some key) (suc n)
            ≡ ok (page_of (suc n) (drop (suc m) (covered version end (from seek keys)))))
direct_range_entries-page {b} {keys} fuel ctx version start end seek key m n h hf live hs = (
  direct_range_entries-from fuel ctx b version start end none seek m (of_result-ok hs)
      ∙ read (from seek keys) m (h.seek seek) (from-Suffix seek keys),
  λ last.
      let (rest, s, e) =
        suffix-behind version end (from seek keys) keys m key (from-Suffix seek keys) last in
      direct_range_entries-from fuel ctx b version start end (some key) key n refl
      ∙ read rest n (first_key-some key h ∙ ap head (behind-Suffix keys h.ascending s))
          (Suffix-tail s)
      ∙ ap (λ (l : List Bytes). ok (page_of (suc n) l)) e,
)
  where
    read :
        (ss : List Bytes) (room : ℕ) {first : Option Bytes}
        → first ≡ head ss
        → Suffix ss keys
        → direct_loop fuel ctx b version end (suc room) 0 first
          ≡ ok (page_of (suc room) (covered version end ss))
    read ss room e s =
        ap (direct_loop fuel ctx b version end (suc room) 0) e
        ∙ direct_loop-page fuel ctx version end (suc room) 0 room ss h s
            (omega (arith, length-Suffix s)) live (omega arith)
