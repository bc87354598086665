-- ===== src/Server/ResponseCache/Evict.antt =====
-- internal/api/compact_cache.go: what the loop that evicts leaves, and what Add promises.
use bgp_api.Base.{
  ℕ, zero, suc, ◌+◌, ◌≤◌, ◌<◌, ◌≡◌, ◌≢◌, ◌⊎◌, inl, inr, refl, sym, ap, ◌∙◌, arith, true, false,
  Bytes, List, [], ◌∷◌, ◌++◌, append_assoc, append-nil, length, All, ltb, some, Bool-cases, ◌==◌,
  ==_refl, ltb→lt, ltb→le,
}
use bgp_api.Golang.ByteSlice.{bytes_equal}
use bgp_api.Server.ResponseCache.{
  Element, Shard, remove_element, back, evict_element, evict_loop, cache_entry_overhead, discard,
  push_front, shard_add, shard_get,
}
use bgp_api.Server.ResponseCache.Accounts.{
  IsShard, Apart, Distinct, total, find, bytes_equal_refl, evict_element-IsShard,
}
use bgp_api.Server.ResponseCache.Add.{discard-push_front-IsShard, discard-budget}

-- What is kept, and what is evicted behind it: one more element would not fit.
abbrev pub Tight : ℕ → List Element → List Element → Type 0
Tight budget kept [] = Unit {0}
Tight budget kept (d ∷ ds) = budget < total (kept ++ (d ∷ []))

pub record Evicted (s s' : Shard) : Type 0 where
  pub shard : IsShard s'
  pub budget : s'.budget ≡ s.budget
  pub fits : s'.used ≤ s'.budget
  pub gone : List Element
  pub kept : s.lru ≡ s'.lru ++ gone
  pub tight : Tight s'.budget s'.lru gone

-- The last element of a list, taken off.
record Last (e : Element) (es : List Element) : Type 0 where
  found : find e.key es ≡ some e
  split : es ≡ remove_element e.id es ++ (e ∷ [])
  shorter : length es ≡ suc (length (remove_element e.id es))

All-back :
    (P : Element → Type 0) (es : List Element) {e : Element} → All P es → back es ≡ some e → P e
unfolding back
All-back P [] h b = cc
All-back P (f ∷ []) {e} h b = let at : f ≡ e = cc in rw (sym at) h.0
All-back P (f ∷ g ∷ es) h b = All-back P (g ∷ es) h.1 b

back-Last : (es : List Element) {e : Element} → Distinct es → back es ≡ some e → Last e es
unfolding back remove_element
back-Last [] d b = cc
back-Last (f ∷ []) {e} d b =
    let at : f ≡ e = cc in
    rw (sym at) (record {
      found = rw (bytes_equal_refl f.key) refl;
      split = rw (==_refl f.id) refl;
      shorter = rw (==_refl f.id) refl;
    })
back-Last (f ∷ g ∷ es) {e} d b =
    let t = back-Last (g ∷ es) d.1 b in
    let a : Apart f e = All-back (Apart f) (g ∷ es) d.0 b in
    let id_test : (f.id == e.id) ≡ false = ground (arith, a.0) in
    let removed : remove_element e.id (f ∷ g ∷ es) ≡ f ∷ remove_element e.id (g ∷ es) =
      rw id_test refl in
    record {
      found = rw (a.2) t.found;
      split = rw removed (ap (λ l. f ∷ l) t.split);
      shorter = rw removed (ap suc t.shorter);
    }

back-some : (f : Element) (es : List Element) → (e : Element) × (back (f ∷ es) ≡ some e)
unfolding back
back-some f [] = (f, refl)
back-some f (g ∷ es) = back-some g es

total-append : (xs ys : List Element) → total (xs ++ ys) ≡ total xs + total ys
total-append [] ys = omega arith
total-append (x ∷ xs) ys = omega (arith, total-append xs ys)

-- The list is empty, or its last element can be evicted.
Last-of :
    (es : List Element) → Distinct es → (es ≡ []) ⊎ ((e : Element) × (back es ≡ some e) × Last e es)
Last-of [] d = inl refl
Last-of (f ∷ es) d = let (e, b) = back-some f es in inr (e, b, back-Last (f ∷ es) d b)

stops : (s : Shard) → IsShard s → ltb s.budget s.used ≡ false → Evicted s s
stops s h enough = record {
  shard = h;
  budget = refl;
  fits = ltb→le s.budget s.used enough;
  gone = [];
  kept = sym (append-nil s.lru);
  tight = tt;
}

Tight-more :
    (budget : ℕ) (kept gone : List Element) (e : Element)
    → Tight budget kept gone
    → budget < total (kept ++ (gone ++ (e ∷ [])))
    → Tight budget kept (gone ++ (e ∷ []))
Tight-more budget kept [] e t h = h
Tight-more budget kept (d ∷ ds) e t h = t

evict_more :
    (s s' : Shard) (e : Element)
    → IsShard s
    → s.budget < s.used
    → Last e s.lru
    → Evicted (evict_element s e) s'
    → Evicted s s'
unfolding evict_element
evict_more s s' e h over l r =
    let split : s.lru ≡ s'.lru ++ (r.gone ++ (e ∷ [])) =
      l.split ∙ ap (λ xs. xs ++ (e ∷ [])) r.kept ∙ append_assoc s'.lru r.gone (e ∷ []) in
    let over_total : s'.budget < total s.lru = omega (arith, h.used, r.budget, over) in
    record {
      shard = r.shard;
      budget = r.budget;
      fits = r.fits;
      gone = r.gone ++ (e ∷ []);
      kept = split;
      tight = Tight-more s'.budget s'.lru r.gone e r.tight (rw (sym split) over_total);
    }

not_empty : (s : Shard) → IsShard s → ltb s.budget s.used ≡ true → s.lru ≢ []
not_empty s h over empty =
    let u : s.used ≡ 0 = rw empty at h.used in omega (arith, u, ltb→lt s.budget s.used over)

-- From a shard whose map, list and used bytes agree, and with as many rounds as its list has elements,
-- the loop that evicts ends without a panic; the agreement still holds, the used bytes fit the budget,
-- the list is the front part of the old one, and its next element would not have fitted.
pub evict_loop_lem :
    (fuel : ℕ) (s : Shard)
    → IsShard s
    → length s.lru ≤ fuel
    → (s' : Shard) × (evict_loop fuel s ≡ some s') × Evicted s s'
unfolding evict_loop evict_element
evict_loop_lem zero s h enough = elim (Bool-cases (ltb s.budget s.used)) [
  | inl over ↦ elim (Last-of s.lru h.distinct) [
    | inl empty ↦ absurd (not_empty s h over empty)
    | inr (e, b, l) ↦ absurd (omega (arith, l.shorter, enough))
  ]
  | inr under ↦ (s, rw under refl, stops s h under)
]
evict_loop_lem (suc fuel) s h enough = elim (Bool-cases (ltb s.budget s.used)) [
  | inl over ↦ elim (Last-of s.lru h.distinct) [
    | inl empty ↦ absurd (not_empty s h over empty)
    | inr (e, b, l) ↦
        let (s', eq, r) =
          evict_loop_lem fuel (evict_element s e) (evict_element-IsShard s e h l.found)
            (omega (arith, l.shorter, enough)) in
        (s', rw (over, b) eq, evict_more s s' e h (ltb→lt s.budget s.used over) l r)
  ]
  | inr under ↦ (s, rw under refl, stops s h under)
]

-- What Add does to a shard.
pub data Added (s : Shard) (key value : Bytes) (s' : Shard) : Type 0 where
  refused :
      (s.max_entry < length value) ⊎ (s.budget < length key + length value + cache_entry_overhead)
      → s' ≡ s
      → Added s key value s'
  stored :
      length value ≤ s.max_entry
      → Evicted (push_front (discard s key) key value) s'
      → (shard_get s' key).0 ≡ some value
      → Added s key value s'

front_kept :
    (key : Bytes) (e : Element) (es kept gone : List Element) (budget : ℕ)
    → e.key ≡ key
    → e.size ≤ budget
    → e ∷ es ≡ kept ++ gone
    → Tight budget kept gone
    → find key kept ≡ some e
front_kept key e es [] [] budget k small h t = cc
front_kept key e es [] (d ∷ gone) budget k small h t =
    let at : e ≡ d = cc in
    let over : budget < d.size + 0 = t in
    let size : e.size ≡ d.size = ap (λ x. x.size) at in absurd (omega (arith, over, size, small))
front_kept key e es (f ∷ kept) gone budget k small h t =
    let at : e ≡ f = cc in
    let same : bytes_equal key f.key ≡ true = rw (sym at, k) (bytes_equal_refl key) in
    rw same (ap some (sym at))

shard_get-found :
    (s : Shard) (key : Bytes) {e : Element}
    → s.entries key ≡ some e
    → (shard_get s key).0 ≡ some e.value
unfolding shard_get
shard_get-found s key h = rw (shard_get, h) refl

stored_in :
    (s s' : Shard) (key value : Bytes)
    → length value ≤ s.max_entry
    → length key + length value + cache_entry_overhead ≤ s.budget
    → Evicted (push_front (discard s key) key value) s'
    → Added s key value s'
unfolding push_front
stored_in s s' key value m small r =
    let b : s'.budget ≡ s.budget = r.budget ∙ discard-budget s key in
    stored m r (
      shard_get-found s' key (
        r.shard.found key
        ∙ front_kept key _ _ s'.lru r.gone s'.budget refl (omega (arith, b, small)) r.kept r.tight))

-- From a shard whose map, list and used bytes agree, Add never panics; it leaves the shard unchanged
-- where the value or the entry is too large, and otherwise evicts from the back just enough after it
-- has put the entry in front, and Get then gives the value.
pub shard_add_lem :
    (s : Shard) (key value : Bytes)
    → IsShard s
    → (s' : Shard) × (shard_add s key value ≡ some s') × Added s key value s'
unfolding shard_add
shard_add_lem s key value h = elim (Bool-cases (ltb s.max_entry (length value))) [
  | inl long ↦ (s, rw long refl, refused (inl (ltb→lt _ _ long)) refl)
  | inr short ↦
      elim (Bool-cases (ltb s.budget (length key + length value + cache_entry_overhead))) [
        | inl large ↦ (s, rw (short, large) refl, refused (inr (ltb→lt _ _ large)) refl)
        | inr small ↦
            let p = push_front (discard s key) key value in
            let (s', eq, r) =
              evict_loop_lem (length p.lru) p (discard-push_front-IsShard s key value h)
                (omega arith) in
            (
              s',
              rw (short, small) eq,
              stored_in s s' key value (ltb→le _ _ short) (ltb→le _ _ small) r,
            )
      ]
]
