-- ===== src/Server/ResponseCache/Add.antt =====
-- internal/api/compact_cache.go: Add before it evicts keeps the map and the list of a shard together.
use bgp_api.Base.{
  ℕ, ◌+◌, ◌<◌, ◌≡◌, inl, inr, refl, sym, ◌∙◌, arith, true, false, Bytes, List, [], ◌∷◌, All, none,
  some, Bool-cases, Option-cases,
}
use bgp_api.Golang.ByteSlice.{bytes_equal}
use bgp_api.Server.ResponseCache.{Element, Shard, remove_element, discard, push_front}
use bgp_api.Server.ResponseCache.Accounts.{
  IsShard, IsSized, Apart, Distinct, total, find, find-Taken, bytes_equal_sound, bytes_equal_refl,
  All-remove_element, Distinct-remove_element,
}

bytes_equal_sym : (a b : Bytes) → bytes_equal a b ≡ false → bytes_equal b a ≡ false
bytes_equal_sym a b h = elim (Bool-cases (bytes_equal b a)) [
  | inl same ↦
      let e : bytes_equal a b ≡ true = rw (bytes_equal_sound b a same) (bytes_equal_refl a) in cc
  | inr other ↦ other
]

find-none :
    (k : Bytes) (es : List Element) → find k es ≡ none → All (λ d. bytes_equal k d.key ≡ false) es
find-none k [] h = tt
find-none k (d ∷ es) h = elim (Bool-cases (bytes_equal k d.key)) [
  | inl same ↦ let e : some d ≡ none = rw same at h in cc
  | inr other ↦ (other, find-none k es (rw other at h))
]

-- A shard whose list has no element with the key, while its map may still have one.
record Cleared (s : Shard) (key : Bytes) : Type 0 where
  used : s.used ≡ total s.lru
  found : (k : Bytes) → bytes_equal k key ≡ false → s.entries k ≡ find k s.lru
  absent : All (λ d. bytes_equal key d.key ≡ false) s.lru
  distinct : Distinct s.lru
  fresh : All (λ e. e.id < s.next_id) s.lru
  sized : All IsSized s.lru

keys_of_Apart :
    (e : Element) (es : List Element)
    → All (Apart e) es
    → All (λ d. bytes_equal e.key d.key ≡ false) es
keys_of_Apart e [] h = tt
keys_of_Apart e (d ∷ es) h = (h.0.1, keys_of_Apart e es h.1)

discard-Cleared : (s : Shard) (key : Bytes) → IsShard s → Cleared (discard s key) key
unfolding discard
discard-Cleared s key h = elim (Option-cases (s.entries key)) [
  | inl missing ↦
      rw (discard, missing)
        (record {
          used = h.used;
          found = λ k _. h.found k;
          absent = find-none key s.lru (sym (h.found key) ∙ missing);
          distinct = h.distinct;
          fresh = h.fresh;
          sized = h.sized;
        })
  | inr (e, present) ↦
      let t = find-Taken key s.lru h.distinct (sym (h.found key) ∙ present) in
      rw (discard, present)
        (record {
          used = omega (arith, h.used, t.total_rest);
          found = λ k other.
              let apart : bytes_equal k e.key ≡ false = rw t.key at other in
              let r : find k (remove_element e.id s.lru) ≡ find k s.lru = rw apart at (t.rest k) in
              h.found k ∙ sym r;
          absent = rw (sym t.key) at (keys_of_Apart e (remove_element e.id s.lru) t.apart);
          distinct = Distinct-remove_element e.id s.lru h.distinct;
          fresh = All-remove_element (λ d. d.id < s.next_id) e.id s.lru h.fresh;
          sized = All-remove_element IsSized e.id s.lru h.sized;
        })
]

All-Apart :
    (e : Element) (es : List Element)
    → All (λ d. d.id < e.id) es
    → All (λ d. bytes_equal e.key d.key ≡ false) es
    → All (Apart e) es
All-Apart e [] hi hk = tt
All-Apart e (d ∷ es) hi hk =
    ((λ p. omega (arith, hi.0), hk.0, bytes_equal_sym e.key d.key hk.0), All-Apart e es hi.1 hk.1)

All-later : (n : ℕ) (es : List Element) → All (λ e. e.id < n) es → All (λ e. e.id < n + 1) es
All-later n [] h = tt
All-later n (e ∷ es) h = (omega (arith, h.0), All-later n es h.1)

push_front-IsShard :
    (s : Shard) (key value : Bytes) → Cleared s key → IsShard (push_front s key value)
unfolding push_front
push_front-IsShard s key value h = record {
  used = omega (arith, h.used);
  found = λ k. elim (Bool-cases (bytes_equal k key)) [
    | inl same ↦ rw same refl
    | inr other ↦ rw other (h.found k other)
  ];
  distinct = (
    All-Apart (record { id = s.next_id; key = key; value = value; size = 0 }) s.lru h.fresh
        h.absent,
    h.distinct,
  );
  fresh = (omega arith, All-later s.next_id s.lru h.fresh);
  sized = (refl, h.sized);
}

-- The element that Add puts in front takes the place of the one with the same key.
pub discard-push_front-IsShard :
    (s : Shard) (key value : Bytes) → IsShard s → IsShard (push_front (discard s key) key value)
discard-push_front-IsShard s key value h =
    push_front-IsShard (discard s key) key value (discard-Cleared s key h)

pub discard-budget : (s : Shard) (key : Bytes) → (discard s key).budget ≡ s.budget
unfolding discard
discard-budget s key = elim (Option-cases (s.entries key)) [
  | inl missing ↦ rw (discard, missing) refl
  | inr (e, present) ↦ rw (discard, present) refl
]
