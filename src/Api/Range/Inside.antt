-- ===== src/Api/Range/Inside.antt =====
-- internal/api/bbolt.go: the keys that a range query reads are the ones of the records that start inside
-- the range, which the bucket's order puts next to one another.
use Prim.Native.Nat.{compare, Ordering}
use bgp_api.Base.{
  ℕ, suc, ◌<◌, ◌≡◌, ◌≢◌, inl, inr, refl, sym, ◌∙◌, ap, arith, Bytes, Bool, true, false, not, ◌&&◌,
  All, List, [], ◌∷◌, ◌++◌, length, ◌==◌, none, Bool-cases, replicate,
}
use bgp_api.Golang.ByteSlice.{compare_bytes, and_then}
use bgp_api.Golang.ByteSlice.Total.{compare_bytes-Fits, compare_bytes-flip}
use bgp_api.Boltstore.Keys.{Address}
use bgp_api.Boltstore.Keys.RoundTrip.{range_index_start_key_lem}
use bgp_api.Api.Reply.{ok}
use bgp_api.Api.Bucket.{Bucket}
use bgp_api.Api.Bucket.Contents.{from, Ascending, Holds}
use bgp_api.Api.Range.Direct.{above, direct_range_entries}
use bgp_api.Api.Range.Pages.{inside, covered, page_of}
use bgp_api.Api.Range.Resume.{direct_range_entries-page}
use bgp_api.Api.Range.Starts.{
  parts, starts_inside, filter, Parts-of, zeros_le, compare-parts, inside-parts,
  starts_inside-parts, lt-cases, from-below, from-at,
}

module _ (version : ℕ) (start end : Address) (hs : length start ≡ 16) where
  abbrev seek : Bytes
  seek = version ∷ (start ++ replicate 20 0)

  abbrev test : ℕ → Bytes → Bool
  test v st = (v == version && not (above st end)) && not (above start st)

  before-parts :
      (v : ℕ) (st tail : Bytes)
      → and_then
          (compare v version)
          (and_then (compare_bytes st start) (compare_bytes tail (replicate 20 0)))
        ≡ Ordering.lt
      → length tail ≡ 20
      → test v st ≡ false
  unfolding above
  before-parts v st tail e m = ground (arith, zeros_le 20 tail m, compare_bytes-flip st start)

  at_seek-parts :
      (v : ℕ) (st tail : Bytes)
      → and_then
          (compare v version)
          (and_then (compare_bytes st start) (compare_bytes tail (replicate 20 0)))
        ≢ Ordering.lt
      → (v == version && not (above st end)) ≡ true
      → test v st ≡ true
  unfolding above
  at_seek-parts v st tail n e = ground (arith, compare_bytes-flip st start)

  behind_end-parts :
      (v v' : ℕ) (st st' tail tail' : Bytes)
      → and_then
          (compare v version)
          (and_then (compare_bytes st start) (compare_bytes tail (replicate 20 0)))
        ≢ Ordering.lt
      → and_then (compare v v') (and_then (compare_bytes st st') (compare_bytes tail tail'))
        ≡ Ordering.lt
      → (v == version && not (above st end)) ≡ false
      → test v' st' ≡ false
  unfolding above
  behind_end-parts v v' st st' tail tail' n lt e =
      ground (arith, (compare_bytes-Fits st st' end).above)

  seek-parts :
      (v : ℕ) (st tail : Bytes)
      → length st ≡ 16
      → compare_bytes (v ∷ (st ++ tail)) seek
        ≡ and_then
            (compare v version)
            (and_then (compare_bytes st start) (compare_bytes tail (replicate 20 0)))
  seek-parts v st tail l = compare-parts v version st start tail (replicate 20 0) (l ∙ sym hs)

  before :
      (k : Bytes)
      → length k ≡ 37
      → compare_bytes k seek ≡ Ordering.lt
      → starts_inside version start end k ≡ false
  before k h e = elim (Parts-of k h) [
    | parts v st tail ek l m ↦
        rw (ek, starts_inside-parts version v start end st tail l m)
          (before-parts v st tail (sym (seek-parts v st tail l) ∙ rw ek at e) m)
  ]

  at_seek :
      (k : Bytes)
      → length k ≡ 37
      → compare_bytes k seek ≢ Ordering.lt
      → inside version end k ≡ true
      → starts_inside version start end k ≡ true
  at_seek k h n e = elim (Parts-of k h) [
    | parts v st tail ek l m ↦
        rw (ek, starts_inside-parts version v start end st tail l m)
          (at_seek-parts v st tail (rw (ek, seek-parts v st tail l) at n)
            (sym (inside-parts version v end st tail l m) ∙ rw ek at e))
  ]

  behind_end :
      (k j : Bytes)
      → length k ≡ 37
      → length j ≡ 37
      → compare_bytes k seek ≢ Ordering.lt
      → compare_bytes k j ≡ Ordering.lt
      → inside version end k ≡ false
      → starts_inside version start end j ≡ false
  behind_end k j h h' n lt e = elim (Parts-of k h) [
    | parts v st tail ek l m ↦ elim (Parts-of j h') [
      | parts v' st' tail' ek' l' m' ↦
          rw (ek', starts_inside-parts version v' start end st' tail' l' m')
            (behind_end-parts v v' st st' tail tail' (rw (ek, seek-parts v st tail l) at n)
              (sym (compare-parts v v' st st' tail tail' (l ∙ sym l')) ∙ rw (ek, ek') at lt)
              (sym (inside-parts version v end st tail l m) ∙ rw ek at e))
    ]
  ]

  filter-none :
      (k : Bytes) (ks : List Bytes)
      → length k ≡ 37
      → All (λ l. length l ≡ 37) ks
      → compare_bytes k seek ≢ Ordering.lt
      → All (λ l. compare_bytes k l ≡ Ordering.lt) ks
      → inside version end k ≡ false
      → filter (starts_inside version start end) ks ≡ []
  unfolding filter
  filter-none k [] h hs' n a e = refl
  filter-none k (j ∷ ks) h hs' n a e =
      simp (filter, behind_end k j h hs'.0 n a.0 e) (filter-none k ks h hs'.1 n a.1 e)

  outside : (k : Bytes) → inside version end k ≡ false → starts_inside version start end k ≡ false
  unfolding starts_inside
  outside k e = simp (starts_inside, e) refl

  above_seek :
      (k : Bytes) (ks : List Bytes)
      → compare_bytes k seek ≢ Ordering.lt
      → All (λ l. compare_bytes k l ≡ Ordering.lt) ks
      → All (λ l. compare_bytes l seek ≢ Ordering.lt) ks
  above_seek k [] n a = tt
  above_seek k (l ∷ ks) n a =
      (λ e. n ((compare_bytes-Fits k l seek).below a.0 e), above_seek k ks n a.1)

  -- Behind the place that is sought.
  covered-filter :
      (ks : List Bytes)
      → All (λ l. length l ≡ 37) ks
      → All (λ l. compare_bytes l seek ≢ Ordering.lt) ks
      → Ascending ks
      → covered version end ks ≡ filter (starts_inside version start end) ks
  unfolding covered filter
  covered-filter [] h n a = refl
  covered-filter (k ∷ ks) h n a = elim (Bool-cases (inside version end k)) [
    | inl e ↦
        simp (covered, filter, e, at_seek k h.0 n.0 e)
          (ap (λ (l : List Bytes). k ∷ l) (covered-filter ks h.1 n.1 a.1))
    | inr e ↦ simp (covered, filter, e, outside k e) (sym (filter-none k ks h.0 h.1 n.0 a.0 e))
  ]

  covered-from :
      (ks : List Bytes)
      → All (λ l. length l ≡ 37) ks
      → Ascending ks
      → covered version end (from seek ks) ≡ filter (starts_inside version start end) ks
  unfolding filter
  covered-from [] h a = unfold from in unfold covered in refl
  covered-from (k ∷ ks) h a = elim (lt-cases (compare_bytes k seek)) [
    | inl e ↦
        ap (covered version end) (from-below seek k ks e)
        ∙ covered-from ks h.1 a.1
        ∙ simp (filter, before k h.0 e) refl
    | inr n ↦
        ap (covered version end) (from-at seek k ks n)
        ∙ covered-filter (k ∷ ks) h (n, above_seek k ks n a.0) a
  ]

-- With enough fuel and a context that does not end, the entries that a range query finds behind the
-- covering ones are, in the order of the bucket's keys, the first ones of the records of the version that
-- start inside the range, as many as fit, and it tells whether as many as that were found; for keys of 37
-- bytes and a start of sixteen.
pub direct_range_entries-filter :
    {b : Bucket} {keys : List Bytes} (fuel : ℕ) (ctx : ℕ → Bool) (version : ℕ) (start end : Address)
    (m : ℕ)
    → Holds b keys
    → All (λ k. length k ≡ 37) keys
    → length start ≡ 16
    → length keys < fuel
    → ((i : ℕ) → ctx i ≡ false)
    → direct_range_entries fuel ctx b version start end none (suc m)
      ≡ ok (page_of (suc m) (filter (starts_inside version start end) keys))
direct_range_entries-filter {b} {keys} fuel ctx version start end m h sizes hs hf live =
    (direct_range_entries-page fuel ctx version start end (version ∷ (start ++ replicate 20 0)) [] m
      0 h hf live (range_index_start_key_lem (replicate 37 0) version start (omega arith) hs)).0
    ∙ ap (λ (l : List Bytes). ok (page_of (suc m) l))
        (covered-from version start end hs keys sizes h.ascending)
