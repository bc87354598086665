-- ===== src/Api/Asn/Ids.antt =====
-- internal/api/bbolt.go: the IDs of an AS number in their list of bytes.
use bgp_api.Base.{
  ℕ, zero, suc, ◌+◌, ◌-◌, ◌*◌, ◌^◌, ◌≤◌, ◌<◌, ◌≡◌, refl, sym, ap, ◌∙◌, arith, Bytes, false, All,
  List, [], ◌∷◌, ◌++◌, length, take, drop, ltb, Bool-cases, inl, inr, ltb→lt, length-drop,
  if◌then◌else◌,
}
use bgp_api.Golang.Binary.{put_uint32}
use bgp_api.Golang.Binary.Words.{uint32-put_uint32, length-put_uint32}
use bgp_api.Golang.ByteSlice.Write.{drop_exact}
use bgp_api.Boltstore.Keys.{encode_ids}
use bgp_api.Boltstore.Keys.RoundTrip.{length-encode_ids}
use bgp_api.Api.Reply.{ok}
use bgp_api.Golang.Int64.{int64}
use bgp_api.Api.Asn.{id_at, id_in}

pub All-drop : (P : ℕ → Type 0) (n : ℕ) (xs : List ℕ) → All P xs → All P (drop n xs)
All-drop P zero xs h = h
All-drop P (suc n) [] h = tt
All-drop P (suc n) (x ∷ xs) h = All-drop P n xs h.1

drop-nil : {A : Type 0} (n : ℕ) → drop {A = A} n [] ≡ []
drop-nil zero = refl
drop-nil (suc n) = refl

drop-drop : {A : Type 0} (m n : ℕ) (xs : List A) → drop (m + n) xs ≡ drop n (drop m xs)
drop-drop zero n xs = let e : zero + n ≡ n = omega arith in rw e refl
drop-drop (suc m) n [] = drop-nil (suc m + n) ∙ sym (drop-nil n)
drop-drop (suc m) n (x ∷ xs) =
    let e : suc m + n ≡ suc (m + n) = omega arith in rw e (drop-drop m n xs)

id_at-encode_ids :
    (raw : Bytes) (index id : ℕ) (ids : List ℕ)
    → id < 2 ^ 32
    → drop (index * 4) raw ≡ encode_ids (id ∷ ids)
    → id_at raw index ≡ id
unfolding id_at encode_ids
id_at-encode_ids raw index id ids h e = rw e (uint32-put_uint32 id (encode_ids ids) h)

-- An ID that is there ends inside the list.
pub place_le :
    (raw : Bytes) (index id : ℕ) (ids : List ℕ)
    → drop (index * 4) raw ≡ encode_ids (id ∷ ids)
    → index * 4 + 4 ≤ length raw
place_le raw index id ids e =
    omega (arith, length-drop (index * 4) raw, ap length e, length-encode_ids (id ∷ ids))

pub id_in-encode_ids :
    (raw : Bytes) (index id : ℕ) (ids : List ℕ)
    → id < 2 ^ 32
    → length raw < 2 ^ 60
    → drop (index * 4) raw ≡ encode_ids (id ∷ ids)
    → id_in raw index ≡ ok id
unfolding id_in
id_in-encode_ids raw index id ids h l e =
    let inside = place_le raw index id ids e in
    let offset : int64 (index * 4) ≡ index * 4 = omega arith in
    let fits : ltb (length raw) (index * 4 + 4) ≡ false = ground (arith, inside) in
    simp (id_in, offset, fits) (ap ok (id_at-encode_ids raw index id ids h e))

pub next_drop :
    (raw : Bytes) (index id : ℕ) (ids : List ℕ)
    → drop (index * 4) raw ≡ encode_ids (id ∷ ids)
    → drop (suc index * 4) raw ≡ encode_ids ids
unfolding encode_ids
next_drop raw index id ids e =
    let m : suc index * 4 ≡ index * 4 + 4 = omega arith in
    rw m (
      drop-drop (index * 4) 4 raw
      ∙ ap (drop 4) e
      ∙ drop_exact 4 (put_uint32 id) (encode_ids ids) (length-put_uint32 id))

pub at_index :
    (ids : List ℕ) (index : ℕ)
    → index ≤ length ids
    → drop (index * 4) (encode_ids ids) ≡ encode_ids (drop index ids)
unfolding encode_ids
at_index ids zero h = refl
at_index [] (suc index) h = absurd (omega arith)
at_index (id ∷ ids) (suc index) h =
    let m : suc index * 4 ≡ 4 + index * 4 = omega arith in
    rw m (
      drop-drop 4 (index * 4) (put_uint32 id ++ encode_ids ids)
      ∙ ap (drop (index * 4)) (drop_exact 4 (put_uint32 id) (encode_ids ids) (length-put_uint32 id))
      ∙ at_index ids index (omega arith))

take_all : {A : Type 0} (n : ℕ) (xs : List A) → length xs ≤ n → take n xs ≡ xs
take_all zero [] h = refl
take_all zero (x ∷ xs) h = absurd (omega arith)
take_all (suc n) [] h = refl
take_all (suc n) (x ∷ xs) h = ap (λ t. x ∷ t) (take_all n xs (omega arith))

pub drop_all : {A : Type 0} (n : ℕ) (xs : List A) → length xs ≤ n → drop n xs ≡ []
drop_all n [] h = drop-nil n
drop_all zero (x ∷ xs) h = absurd (omega arith)
drop_all (suc n) (x ∷ xs) h = drop_all n xs (omega arith)

pub take-nil : {A : Type 0} (n : ℕ) → take {A = A} n [] ≡ []
take-nil zero = refl
take-nil (suc n) = refl

pub slice_inside :
    (ids : List ℕ) (a limit : ℕ)
    → a < length ids
    → take ((if ltb (length ids) (a + limit) then length ids else a + limit) - a) (drop a ids)
      ≡ take limit (drop a ids)
slice_inside ids a limit h = elim (Bool-cases (ltb (length ids) (a + limit))) [
  | inl e ↦
      let below = ltb→lt (length ids) (a + limit) e in
      let size = length-drop a ids in
      simp e (
        take_all (length ids - a) (drop a ids) (omega (arith, size))
        ∙ sym (take_all limit (drop a ids) (omega (arith, size))))
  | inr e ↦ let n : a + limit - a ≡ limit = omega arith in simp (e, n) refl
]
