-- ===== src/Api/Bucket/Contents.antt =====
-- What a bucket of bbolt does for the keys that it holds: its documentation says that they are in the
-- order of their bytes, that Seek moves to the first key that is not below the one sought, and that
-- Next moves to the key behind it.
use Prim.Native.Nat.{Ordering}
use bgp_api.Base.{◌≡◌, Bytes, List, [], ◌∷◌, Option, none, some, All}
use bgp_api.Golang.ByteSlice.{compare_bytes}
use bgp_api.Api.Bucket.{Bucket}

abbrev pub head : List Bytes → Option Bytes
head [] = none
head (k ∷ ks) = some k

-- The keys from the first one on that is not below `key`.
unfoldable pub from : Bytes → List Bytes → List Bytes
unfolding compare_bytes
from key [] = []
from key (k ∷ ks) =
    let rest = from key ks in elim (compare_bytes k key) [ Ordering.lt ↦ rest | _ ↦ k ∷ ks ]

-- The keys behind `key`.
unfoldable pub behind : Bytes → List Bytes → List Bytes
unfolding compare_bytes
behind key [] = []
behind key (k ∷ ks) =
    let rest = behind key ks in elim (compare_bytes k key) [ Ordering.gt ↦ k ∷ ks | _ ↦ rest ]

-- Each key is below the ones that come after it.
abbrev pub Ascending : List Bytes → Type 0
Ascending [] = Unit
Ascending (k ∷ ks) = All (λ l. compare_bytes k l ≡ Ordering.lt) ks × Ascending ks

pub record Holds (b : Bucket) (keys : List Bytes) : Type 0 where
  pub ascending : Ascending keys
  pub seek : (key : Bytes) → b.seek key ≡ head (from key keys)
  pub next : (key : Bytes) → b.next key ≡ head (behind key keys)
