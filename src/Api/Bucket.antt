-- ===== src/Api/Bucket.antt =====
-- Package go.etcd.io/bbolt, as a read-only transaction of the repository uses it.
pub mod Contents
pub mod Cursor
use bgp_api.Base.{Bytes, [], Option, none, some}
use bgp_api.Api.Reply.{BucketName, Reply, ok, panic}

-- Get; and the keys that a cursor's Seek and Next give, Next for the key where the cursor stands. Both
-- give `none` for a nil key, behind the last one.
pub record Bucket : Type 0 where
  pub get : Bytes → Option Bytes
  pub seek : Bytes → Option Bytes
  pub next : Bytes → Option Bytes

-- A transaction's Bucket, nil for a name that the file does not have.
abbrev pub Tx : Type 0
Tx = BucketName → Option Bucket

-- A method of a nil bucket panics.
unfoldable pub bucket : Tx → BucketName → Reply Bucket
bucket tx name = elim (tx name) [ none ↦ panic | some b ↦ ok b ]

-- The key where a cursor stands, empty when there is none.
abbrev pub key_of : Option Bytes → Bytes
key_of none = []
key_of (some key) = key
