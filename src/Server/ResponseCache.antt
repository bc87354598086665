-- ===== src/Server/ResponseCache.antt =====
-- internal/api/compact_cache.go: the sharded cache of serialized responses. A shard's mutex makes each
-- of its operations one step; a nil cache is `none` where a caller passes one.
pub mod Accounts
pub mod Add
pub mod Evict
pub mod Shards
pub mod Released
pub mod Empty
pub mod Bounded
pub mod Lookup
mod Runs
use Prim.Native.Nat.{bit_xor}
use bgp_api.Base.{
  ℕ, zero, suc, ◌+◌, ◌-◌, ◌*◌, ◌/◌, ◌%◌, ◌^◌, Bool, true, false, ◌||◌, Bytes, List, [], ◌∷◌, length,
  get_elem?, leb, ltb, ◌==◌, if◌then◌else◌, Option, none, some,
}
use bgp_api.Golang.ByteSlice.{bytes_equal}

-- `*list.Element` and the entry in it, which is never changed: the number is the pointer's identity.
pub record Element : Type 0 where
  pub id : ℕ
  pub key : Bytes
  pub value : Bytes
  pub size : ℕ

-- `next_id` numbers the elements that PushFront makes.
pub record Shard : Type 0 where
  pub budget : ℕ
  pub used : ℕ
  pub max_entry : ℕ
  pub entries : Bytes → Option Element
  pub lru : List Element
  pub next_id : ℕ

abbrev pub cache_entry_overhead : ℕ
cache_entry_overhead = 128

abbrev pub response_cache_shards : ℕ
response_cache_shards = 32

-- `lru.Remove`, which does nothing with an element that is not in the list.
unfoldable pub remove_element : ℕ → List Element → List Element
remove_element id [] = []
remove_element id (e ∷ es) = let rest = remove_element id es in if e.id == id then es else e ∷ rest

-- `lru.Back()`, nil on an empty list.
unfoldable pub back : List Element → Option Element
back [] = none
back (e ∷ []) = some e
back (e ∷ d ∷ es) = back (d ∷ es)

abbrev pub assign : (Bytes → Option Element) → Bytes → Option Element → Bytes → Option Element
assign entries key o k = if bytes_equal k key then o else entries k

-- The body of Get under the lock.
unfoldable pub shard_get : Shard → Bytes → Option Bytes × Shard
unfolding remove_element
shard_get s key = elim (s.entries key) [
  | none ↦ (none, s)
  | some e ↦ (some e.value, record s { lru = e ∷ remove_element e.id s.lru })
]

-- The body of the loop that evicts, for the element at the back.
unfoldable pub evict_element : Shard → Element → Shard
unfolding remove_element
evict_element s e = record s {
  entries = assign s.entries e.key none;
  used = s.used - e.size;
  lru = remove_element e.id s.lru;
}

-- `for shard.used > shard.budget`. Each round takes one element away; `none` is the panic on a nil
-- element.
unfoldable pub evict_loop : ℕ → Shard → Option Shard
unfolding back evict_element
evict_loop zero s = if ltb s.budget s.used then none else some s
evict_loop (suc fuel) s =
    let rest : Option Shard = elim (back s.lru) [
      | none ↦ none
      | some e ↦ evict_loop fuel (evict_element s e)
    ] in
    if ltb s.budget s.used then rest else some s

-- The entry that has the key already is taken out of the list; its map entry is overwritten.
unfoldable pub discard : Shard → Bytes → Shard
unfolding remove_element
discard s key = elim (s.entries key) [
  | none ↦ s
  | some e ↦ record s { used = s.used - e.size; lru = remove_element e.id s.lru }
]

unfoldable pub push_front : Shard → Bytes → Bytes → Shard
push_front s key value =
    let size = length key + length value + cache_entry_overhead in
    let e : Element = record { id = s.next_id; key = key; value = value; size = size } in
    record s {
      used = s.used + size;
      entries = assign s.entries key (some e);
      lru = e ∷ s.lru;
      next_id = s.next_id + 1;
    }

-- The body of Add for an enabled cache.
unfoldable pub shard_add : Shard → Bytes → Bytes → Option Shard
unfolding evict_loop discard push_front
shard_add s key value =
    let size = length key + length value + cache_entry_overhead in
    let s' = push_front (discard s key) key value in
    if ltb s.max_entry (length value) || ltb s.budget size
    then some s
    else evict_loop (length s'.lru) s'

abbrev pub empty_shard : ℕ → ℕ → Shard
empty_shard budget max_entry = record {
  budget = budget;
  used = 0;
  max_entry = max_entry;
  entries = λ _. none;
  lru = [];
  next_id = 0;
}

-- What DisableAndClear leaves of a shard.
abbrev pub clear_shard : Shard → Shard
clear_shard s = record s { entries = λ _. none; lru = []; used = 0 }

-- `flights` has the flight of each key that a producer has in hand. A flight is a number that stands for
-- its pointer; `closed` tells whether its channel is closed, and `next_flight` numbers the next one.
pub record ResponseCache : Type 0 where
  pub shards : List Shard
  pub flights : Bytes → Option ℕ
  pub closed : ℕ → Bool
  pub next_flight : ℕ
  pub enabled : Bool

-- The loop of newResponseCache from a shard's index on.
unfoldable pub make_shards : ℕ → ℕ → ℕ → ℕ → List Shard
make_shards zero index budget max_entry = []
make_shards (suc count) index budget max_entry =
    let share = budget / response_cache_shards in
    (if ltb index (budget % response_cache_shards)
      then empty_shard (share + 1) max_entry
      else empty_shard share max_entry)
    ∷ make_shards count (index + 1) budget max_entry

-- newResponseCache; `none` is nil. A negative budget is no cache either, and no value here.
unfoldable pub new_response_cache : ℕ → ℕ → ℕ → Option ResponseCache
unfolding make_shards
new_response_cache budget fallback max_entry =
    let budget' = if budget == 0 then fallback else budget in
    if ltb budget' 1
    then none
    else some record {
      shards = make_shards response_cache_shards 0 budget' max_entry;
      flights = λ _. none;
      closed = λ _. false;
      next_flight = 0;
      enabled = true;
    }

-- The FNV-1a hash of a key in 32 bits.
unfoldable pub hash_loop : ℕ → Bytes → ℕ
hash_loop hash [] = hash
hash_loop hash (c ∷ key) = hash_loop (bit_xor hash c * 16_777_619 % 2 ^ 32) key

unfoldable pub shard_index : Bytes → ℕ
unfolding hash_loop
shard_index key = hash_loop 2_166_136_261 key % response_cache_shards

unfoldable pub set_shard : List Shard → ℕ → Shard → List Shard
set_shard [] i s = []
set_shard (t ∷ ts) zero s = s ∷ ts
set_shard (t ∷ ts) (suc i) s = t ∷ set_shard ts i s

-- Get
unfoldable pub get : ResponseCache → Bytes → Option Bytes × ResponseCache
unfolding shard_get shard_index set_shard
get cache key =
    if cache.enabled
    then elim (get_elem? cache.shards (shard_index key)) [
      | none ↦ (none, cache)
      | some s ↦ (
        (shard_get s key).0,
        record cache { shards = set_shard cache.shards (shard_index key) (shard_get s key).1 },
      )
    ]
    else (none, cache)

-- Add; `none` is a panic.
unfoldable pub add : ResponseCache → Bytes → Bytes → Option ResponseCache
unfolding shard_add shard_index set_shard
add cache key value =
    if cache.enabled
    then elim (get_elem? cache.shards (shard_index key)) [
      | none ↦ none
      | some s ↦ elim (shard_add s key value) [
        | none ↦ none
        | some s' ↦ some (record cache { shards = set_shard cache.shards (shard_index key) s' })
      ]
    ]
    else some cache

abbrev pub total_entries : List Shard → ℕ
total_entries [] = 0
total_entries (s ∷ ss) = length s.lru + total_entries ss

abbrev pub total_used : List Shard → ℕ
total_used [] = 0
total_used (s ∷ ss) = s.used + total_used ss

-- Len
abbrev pub len : ResponseCache → ℕ
len cache = total_entries cache.shards

abbrev pub enable : ResponseCache → ResponseCache
enable cache = record cache { enabled = true }

abbrev pub clear_shards : List Shard → List Shard
clear_shards [] = []
clear_shards (s ∷ ss) = clear_shard s ∷ clear_shards ss

-- DisableAndClear, with the usage that it reports.
unfoldable pub disable_and_clear : ResponseCache → (ℕ × ℕ) × ResponseCache
disable_and_clear cache = (
  (total_entries cache.shards, total_used cache.shards),
  record cache { shards = clear_shards cache.shards; enabled = false },
)

-- One round of Acquire's loop: a value, the place of the producer with the flight that its release
-- function holds, or a wait for another producer.
pub data Acquired : Type 0 where
  uncached : Acquired
  cached : Bytes → Acquired
  producer : ℕ → Acquired
  waits : Acquired

unfoldable pub acquire_round : ResponseCache → Bytes → Acquired × ResponseCache
acquire_round cache key =
    let found = get cache key in
    if cache.enabled
    then elim found.0 [
      | some value ↦ (cached value, found.1)
      | none ↦ elim (cache.flights key) [
        | some flight ↦ (waits, cache)
        | none ↦ (
          producer cache.next_flight,
          record cache {
            flights = λ k. if bytes_equal k key then some cache.next_flight else cache.flights k;
            next_flight = cache.next_flight + 1;
          },
        )
      ]
    ]
    else (uncached, cache)

-- The function that a producer of a key calls when it is done. It takes whatever flight the key has off
-- the map and closes the producer's own; `none` is the panic on a channel that is closed already.
unfoldable pub release : ResponseCache → Bytes → ℕ → Option ResponseCache
release cache key flight =
    if cache.closed flight
    then none
    else some (record cache {
      flights = λ k. if bytes_equal k key then none else cache.flights k;
      closed = λ f. if f == flight then true else cache.closed f;
    })

-- The operations that requests and the controller of the caches call, in any order.
pub data Operation : Type 0 where
  get_key : Bytes → Operation
  add_key : Bytes → Bytes → Operation
  acquire_key : Bytes → Operation
  release_key : Bytes → ℕ → Operation
  switch_on switch_off : Operation

unfoldable pub perform : Operation → ResponseCache → Option ResponseCache
unfolding get add acquire_round release disable_and_clear
perform (get_key key) cache = some (get cache key).1
perform (add_key key value) cache = add cache key value
perform (acquire_key key) cache = some (acquire_round cache key).1
perform (release_key key flight) cache = release cache key flight
perform switch_on cache = some (enable cache)
perform switch_off cache = some (disable_and_clear cache).1

unfoldable pub perform_all : List Operation → ResponseCache → Option ResponseCache
unfolding perform
perform_all [] cache = some cache
perform_all (o ∷ os) cache = elim (perform o cache) [
  | none ↦ none
  | some cache' ↦ perform_all os cache'
]
