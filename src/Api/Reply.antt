-- ===== src/Api/Reply.antt =====
-- internal/api/bbolt.go: what its functions return.
pub mod Steps
use bgp_api.Base.{ℕ, Bool, true, false, List, [], ◌∷◌, Option, none, some}
use bgp_api.Boltstore.Decoder.{Error, Result}
use bgp_api.Boltstore.Trie.{LpmError, Outcome}

-- The buckets of the dataset, by their variables in internal/boltstore/store.go.
pub data BucketName : Type 0 where
  metadata allocations routes geofeeds autnums allocation_index route_index : BucketName
  route_lpm geofeed_index allocation_lpm geofeed_lpm allocation_range : BucketName
  route_range asn_routes range_summaries : BucketName

-- `cancelled` is the error of the request's context.
pub data ApiError : Type 0 where
  cancelled invalid_range_cursor query_too_broad invalid_asn_routes : ApiError
  missing_range_index missing_autnums ineligible_range warming_up invalid_prefix : ApiError
  unsupported_schema : ApiError
  undecodable : Error → ApiError
  bad_selector : LpmError → ApiError
  missing_bucket : BucketName → ApiError
  missing_record missing_selector : BucketName → ℕ → ApiError

-- A Go function's value, its error, a run-time panic, or fuel that ran out, which is no Go value.
pub data Reply (A : Type 0) : Type 0 where
  ok : A → Reply A
  err : ApiError → Reply A
  panic stuck : Reply A

infixl 5 ◌>>=◌ ◌>>◌
unfoldable pub ◌>>=◌ : {A B : Type 0} → Reply A → (A → Reply B) → Reply B
ok a >>= f = f a
err e >>= f = err e
panic >>= f = panic
stuck >>= f = stuck

unfoldable pub ◌>>◌ : {A B : Type 0} → Reply A → Reply B → Reply B
unfolding ◌>>=◌
m >> k = m >>= λ _. k

-- `if err != nil { return err }` after a call of internal/boltstore.
unfoldable pub of_result : {A : Type 0} → Result A → Reply A
of_result (Result.ok a) = ok a
of_result (Result.err e) = err (undecodable e)
of_result Result.panic = panic

unfoldable pub of_outcome : {A : Type 0} → Outcome A → Reply A
of_outcome (Outcome.ok a) = ok a
of_outcome (Outcome.err e) = err (bad_selector e)
of_outcome Outcome.panic = panic
of_outcome Outcome.stuck = stuck

-- `for _, id := range ids`, which ends with the first error.
unfoldable pub for_each : {A B : Type 0} → (A → Reply B) → List A → Reply (List B)
unfolding ◌>>=◌
for_each f [] = ok []
for_each f (a ∷ rest) = do b ← f a; bs ← for_each f rest; ok (b ∷ bs)
