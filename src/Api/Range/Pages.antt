-- ===== src/Api/Range/Pages.antt =====
-- internal/api/bbolt.go: what the pages of a range bucket hold, in terms of the keys of the bucket.
use bgp_api.Base.{
  ℕ, zero, suc, ◌+◌, ◌<◌, ◌≡◌, ◌⊎◌, inl, inr, refl, sym, ◌∙◌, ap, arith, Bytes, Bool, true, false,
  not, ◌&&◌, List, [], ◌∷◌, map, length, take, leb, lt→leb, ◌==◌, if◌then◌else◌, some, Bool-cases,
}
use bgp_api.Boltstore.Keys.{Address}
use bgp_api.Api.Reply.{ok, ◌>>=◌}
use bgp_api.Api.Bucket.{Bucket}
use bgp_api.Api.Bucket.Contents.{head, Holds}
use bgp_api.Api.Bucket.Cursor.{Suffix, Suffix-tail, next-Suffix}
use bgp_api.Api.Range.Direct.{RangeIndexEntry, start_of, id_of, of_index, above, direct_loop}

-- A key of the version whose record does not start above `end`.
unfoldable pub inside : ℕ → Address → Bytes → Bool
inside version end key = of_index version key && not (above (start_of key) end)

-- The keys up to the first one that is not inside.
unfoldable pub covered : ℕ → Address → List Bytes → List Bytes
unfolding inside
covered version end [] = []
covered version end (k ∷ ks) =
    let rest = covered version end ks in if inside version end k then k ∷ rest else []

abbrev pub entry_of : Bytes → RangeIndexEntry
entry_of key = record { id = id_of key; key = key }

-- A page of at most `n` entries, and whether it is full.
abbrev pub page_of : ℕ → List Bytes → List RangeIndexEntry × Bool
page_of n ks = (map entry_of (take n ks), leb n (length ks))

page_of_none : (room : ℕ) → page_of (suc room) [] ≡ ([], false)
page_of_none room = ap (λ (b : Bool). ([], b)) (lt→leb (suc room) 0 (omega arith))

covered-inside :
    (version : ℕ) (end k : Bytes) (ss : List Bytes)
    → of_index version k ≡ true
    → above (start_of k) end ≡ false
    → covered version end (k ∷ ss) ≡ k ∷ covered version end ss
unfolding covered inside
covered-inside version end k ss e e' = simp (inside, e, e') refl

covered-outside :
    (version : ℕ) (end k : Bytes) (ss : List Bytes)
    → (of_index version k ≡ false) ⊎ (above (start_of k) end ≡ true)
    → covered version end (k ∷ ss) ≡ []
unfolding covered inside
covered-outside version end k ss (inl e) = simp (inside, e) refl
covered-outside version end k ss (inr e) = elim (Bool-cases (of_index version k)) [
  | inl e' ↦ simp (inside, e, e') refl
  | inr e' ↦ simp (inside, e') refl
]

-- What the loop gives for one key of a bucket.
module _ (fuel : ℕ) (ctx : ℕ → Bool) (b : Bucket) (version : ℕ) (end : Address) (maximum count : ℕ)
    (k : Bytes) where
  step-outside :
      (of_index version k ≡ false) ⊎ (above (start_of k) end ≡ true)
      → direct_loop (suc fuel) ctx b version end maximum count (some k) ≡ ok ([], false)
  unfolding direct_loop
  step-outside (inl e) = simp (direct_loop, e) refl
  step-outside (inr e) = elim (Bool-cases (of_index version k)) [
    | inl e' ↦ simp (direct_loop, e, e') refl
    | inr e' ↦ simp (direct_loop, e') refl
  ]

  step-full :
      of_index version k ≡ true
      → above (start_of k) end ≡ false
      → ctx count ≡ false
      → (suc count == maximum) ≡ true
      → direct_loop (suc fuel) ctx b version end maximum count (some k) ≡ ok (entry_of k ∷ [], true)
  unfolding direct_loop
  step-full e e' live full = simp (direct_loop, e, e', live, full) refl

  step-next :
      of_index version k ≡ true
      → above (start_of k) end ≡ false
      → ctx count ≡ false
      → (suc count == maximum) ≡ false
      → {p : List RangeIndexEntry × Bool}
      → direct_loop fuel ctx b version end maximum (suc count) (b.next k) ≡ ok p
      → direct_loop (suc fuel) ctx b version end maximum count (some k) ≡ ok (entry_of k ∷ p.0, p.1)
  unfolding direct_loop ◌>>=◌
  step-next e e' live full {p} rest = simp (direct_loop, e, e', live, full, rest) refl

page_of-last : (k : Bytes) (ks : List Bytes) → page_of 1 (k ∷ ks) ≡ (entry_of k ∷ [], true)
page_of-last k ks = ap (λ (b : Bool). (entry_of k ∷ [], b)) (ground (arith, length ks))

page_of-more :
    (room : ℕ) (k : Bytes) (ks : List Bytes)
    → page_of (suc (suc room)) (k ∷ ks)
      ≡ (entry_of k ∷ (page_of (suc room) ks).0, (page_of (suc room) ks).1)
page_of-more room k ks =
    let e : leb (suc (suc room)) (suc (length ks)) ≡ leb (suc room) (length ks) = ground arith in
    ap (λ (b : Bool). (entry_of k ∷ map entry_of (take (suc room) ks), b)) e

direct_loop-inside :
    (fuel : ℕ) (ctx : ℕ → Bool) (b : Bucket) (version : ℕ) (end : Address) (maximum count room : ℕ)
    (k : Bytes) (ss : List Bytes)
    → of_index version k ≡ true
    → above (start_of k) end ≡ false
    → ctx count ≡ false
    → maximum ≡ suc (count + room)
    → ((r : ℕ)
        → room ≡ suc r
        → direct_loop fuel ctx b version end maximum (suc count) (b.next k)
          ≡ ok (page_of (suc r) (covered version end ss)))
    → direct_loop (suc fuel) ctx b version end maximum count (some k)
      ≡ ok (page_of (suc room) (k ∷ covered version end ss))
direct_loop-inside fuel ctx b version end maximum count zero k ss e e' live hm rest =
    let full : (suc count == maximum) ≡ true = ground arith in
    step-full fuel ctx b version end maximum count k e e' live full
    ∙ ap ok (sym (page_of-last k (covered version end ss)))
direct_loop-inside fuel ctx b version end maximum count (suc room) k ss e e' live hm rest =
    let full : (suc count == maximum) ≡ false = ground arith in
    step-next fuel ctx b version end maximum count k e e' live full (rest room refl)
    ∙ ap ok (sym (page_of-more room k (covered version end ss)))

pub direct_loop-page :
    {b : Bucket} {keys : List Bytes} (fuel : ℕ) (ctx : ℕ → Bool) (version : ℕ) (end : Address)
    (maximum count room : ℕ) (ss : List Bytes)
    → Holds b keys
    → Suffix ss keys
    → length ss < fuel
    → ((n : ℕ) → ctx n ≡ false)
    → maximum ≡ suc (count + room)
    → direct_loop fuel ctx b version end maximum count (head ss)
      ≡ ok (page_of (suc room) (covered version end ss))
direct_loop-page zero ctx version end maximum count room ss h s hf live hm = absurd (omega arith)
direct_loop-page (suc fuel) ctx version end maximum count room [] h s hf live hm =
    unfold direct_loop in unfold of_index in unfold covered in ap ok (sym (page_of_none room))
direct_loop-page {b} (suc fuel) ctx version end maximum count room (k ∷ ss) h s hf live hm =
    let outside = λ (o : (of_index version k ≡ false) ⊎ (above (start_of k) end ≡ true)).
      step-outside fuel ctx b version end maximum count k o
      ∙ ap ok (
          sym (page_of_none room)
          ∙ ap (page_of (suc room)) (sym (covered-outside version end k ss o))) in
    elim (Bool-cases (of_index version k)) [
      | inr e ↦ outside (inl e)
      | inl e ↦ elim (Bool-cases (above (start_of k) end)) [
        | inl e' ↦ outside (inr e')
        | inr e' ↦
            direct_loop-inside fuel ctx b version end maximum count room k ss e e' (live count) hm
              (λ r er.
                ap (direct_loop fuel ctx b version end maximum (suc count)) (next-Suffix h s)
                ∙ direct_loop-page fuel ctx version end maximum (suc count) r ss h (Suffix-tail s)
                    (omega arith) live (omega arith))
            ∙ ap (λ (l : List Bytes). ok (page_of (suc room) l))
                (sym (covered-inside version end k ss e e'))
      ]
    ]
