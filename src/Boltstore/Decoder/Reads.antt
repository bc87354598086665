-- ===== src/Boltstore/Decoder/Reads.antt =====
-- What each method of the decoder reads back.
use bgp_api.Base.{
  ℕ, ◌+◌, ◌^◌, ◌<◌, ◌≡◌, refl, ◌∙◌, Bytes, [], ◌∷◌, ◌++◌, length, length-append, take-append,
  ==_refl, drop, some, drop-append, append_assoc, append-nil, arith,
}
use bgp_api.Golang.Binary
use bgp_api.Golang.Binary.{put_uint32, put_uint64, uvarint, uvarint_bytes}
use bgp_api.Golang.Binary.Words.{
  uint32-put_uint32, uint64-put_uint64, length-put_uint32, length-put_uint64,
}
use bgp_api.Golang.Binary.Varint.{uvarint-uvarint_bytes}
use bgp_api.Boltstore.Decoder.{
  Decoder, Reader, ok, ◌>>=◌, pure, take_bytes, byte, uint32, uint64, address, string, complete,
  start,
}

-- A decoder that stands behind `front` and before `rest`.
abbrev pub between : Bytes → Bytes → Decoder
between front rest = record { value = front ++ rest; offset = length front }

-- `m` reads exactly `bytes`, wherever they stand, and yields `a`. The buffer's length is an int.
pub record Reads {A : Type 0} (m : Reader A) (bytes : Bytes) (a : A) : Type 0 where
  pub apply :
      (front rest : Bytes)
      → length (front ++ (bytes ++ rest)) < 2 ^ 63
      → m (between front (bytes ++ rest)) ≡ ok (a, between (front ++ bytes) rest)

pub Reads-pure : {A : Type 0} (a : A) → Reads (pure a) [] a
unfolding pure
Reads-pure a = record { apply = λ front rest h. rw append-nil refl }

pub >>=-ok :
    {A B : Type 0} (m : Reader A) (k : A → Reader B) {d d' : Decoder} {a : A}
    → m d ≡ ok (a, d')
    → (m >>= k) d ≡ k a d'
unfolding ◌>>=◌
>>=-ok m k e = rw (e, ◌>>=◌)

pub Reads-bind :
    {A B : Type 0} {m : Reader A} (k : A → Reader B) {xs ys : Bytes} {a : A} {b : B}
    → Reads m xs a
    → Reads (k a) ys b
    → Reads (m >>= k) (xs ++ ys) b
Reads-bind {m} k {xs} {ys} {a} {b} p q = record {
  apply = λ front rest h.
      let h' : length (front ++ (xs ++ (ys ++ rest))) < 2 ^ 63 = rw append_assoc at h in
      let h'' : length ((front ++ xs) ++ (ys ++ rest)) < 2 ^ 63 = rw append_assoc h' in
      rw (append_assoc xs ys rest, ← append_assoc front xs ys)
        (>>=-ok m k (p.apply front (ys ++ rest) h') ∙ q.apply (front ++ xs) rest h'');
}

pub Reads-take : (bytes : Bytes) → Reads (take_bytes (length bytes)) bytes bytes
unfolding take_bytes
Reads-take bytes = record {
  apply = λ front rest h. ground (
    arith,
    length-append front (bytes ++ rest),
    length-append bytes rest,
    length-append front bytes,
    append_assoc front bytes rest,
    drop-append front (bytes ++ rest),
    take-append bytes rest,
  );
}

-- A method that reads and then computes.
pub Reads-map :
    {A B : Type 0} {m : Reader A} (f : A → B) {xs : Bytes} {a : A} (b : B)
    → Reads m xs a
    → f a ≡ b
    → Reads (m >>= λ x. pure (f x)) xs b
Reads-map {m} f {xs} b p e =
    let q : Reads (m >>= λ x. pure (f x)) (xs ++ []) b = Reads-bind _ p (rw e (Reads-pure b)) in
    rw append-nil at q

pub Reads-byte : (b : ℕ) → Reads byte (b ∷ []) b
unfolding byte
Reads-byte b = Reads-map _ b (Reads-take (b ∷ [])) refl

pub Reads-uint32 : (w : ℕ) → w < 2 ^ 32 → Reads uint32 (put_uint32 w) w
unfolding uint32
Reads-uint32 w h =
    Reads-map Binary.uint32 w (rw length-put_uint32 at (Reads-take (put_uint32 w)))
      (rw append-nil at (uint32-put_uint32 w [] h))

pub Reads-uint64 : (w : ℕ) → w < 2 ^ 64 → Reads uint64 (put_uint64 w) w
unfolding uint64
Reads-uint64 w h =
    Reads-map Binary.uint64 w (rw length-put_uint64 at (Reads-take (put_uint64 w)))
      (rw append-nil at (uint64-put_uint64 w [] h))

pub Reads-address : (a : Bytes) → length a ≡ 16 → Reads address a a
unfolding address
Reads-address a h = rw h at (Reads-take a)

-- The length prefix, followed by a method that goes on from it.
string_prefix :
    (s front rest : Bytes)
    → length (front ++ ((uvarint_bytes (length s) ++ s) ++ rest)) < 2 ^ 63
    → uvarint (drop (length front) (front ++ ((uvarint_bytes (length s) ++ s) ++ rest)))
      ≡ some (length s, length (uvarint_bytes (length s)))
string_prefix s front rest h =
    rw (drop-append, append_assoc)
      (uvarint-uvarint_bytes (length s) (s ++ rest) (
        omega (
          arith,
          length-append front ((uvarint_bytes (length s) ++ s) ++ rest),
          length-append (uvarint_bytes (length s) ++ s) rest,
          length-append (uvarint_bytes (length s)) s,
        )))

pub string_after :
    (d : Decoder) {n r : ℕ}
    → uvarint (drop d.offset d.value) ≡ some (n, r)
    → string d ≡ take_bytes n (record d { offset = d.offset + r })
unfolding string
string_after d e = rw (e, string)

pub Reads-string : (s : Bytes) → Reads string (uvarint_bytes (length s) ++ s) s
Reads-string s = record {
  apply = λ front rest h.
      let size = uvarint_bytes (length s) in
      let h' : length ((front ++ size) ++ (s ++ rest)) < 2 ^ 63 =
        rw (append_assoc front size (s ++ rest), ← append_assoc size s rest) h in
      string_after (between front ((size ++ s) ++ rest)) (string_prefix s front rest h)
      ∙ rw
          (
            append_assoc size s rest,
            ← append_assoc front size (s ++ rest),
            ← length-append front size,
            ← append_assoc front size s,
          )
          ((Reads-take s).apply (front ++ size) rest h');
}

complete_ok :
    {A : Type 0} (m : Reader A) (bytes : Bytes) (a : A)
    → m (start bytes) ≡ ok (a, record { value = bytes; offset = length bytes })
    → complete m bytes ≡ ok a
unfolding complete
complete_ok m bytes a e = rw (e, complete, ==_refl)

pub Reads-complete :
    {A : Type 0} (m : Reader A) {bytes : Bytes} {a : A}
    → Reads m bytes a
    → length bytes < 2 ^ 63
    → complete m bytes ≡ ok a
Reads-complete m {bytes} {a} p h =
    complete_ok m bytes a (rw append-nil at (p.apply [] [] (rw append-nil h)))

-- The rules of a `do` block, one for each method, for `search`.
module _ {B : Type 0} (k : ℕ → Reader B) {ys : Bytes} {b : B} where
  pub byte_then : (v : ℕ) → Reads (k v) ys b → Reads (byte >>= k) (v ∷ ys) b
  byte_then v p = Reads-bind k (Reads-byte v) p

  pub uint32_then :
      (v : ℕ) → v < 2 ^ 32 → Reads (k v) ys b → Reads (uint32 >>= k) (put_uint32 v ++ ys) b
  uint32_then v h p = Reads-bind k (Reads-uint32 v h) p

  pub uint64_then :
      (v : ℕ) → v < 2 ^ 64 → Reads (k v) ys b → Reads (uint64 >>= k) (put_uint64 v ++ ys) b
  uint64_then v h p = Reads-bind k (Reads-uint64 v h) p

-- A string with its length in front.
abbrev pub text : Bytes → Bytes
text s = uvarint_bytes (length s) ++ s

module _ {B : Type 0} (k : Bytes → Reader B) {ys : Bytes} {b : B} where
  pub address_then :
      (a : Bytes) → length a ≡ 16 → Reads (k a) ys b → Reads (address >>= k) (a ++ ys) b
  address_then a h p = Reads-bind k (Reads-address a h) p

  pub string_then : (s : Bytes) → Reads (k s) ys b → Reads (string >>= k) (text s ++ ys) b
  string_then s p = Reads-bind k (Reads-string s) p

pub ruleset reads = (byte_then, uint32_then, uint64_then, address_then, string_then, Reads-pure)
