-- ===== src/Server/ResponseCache/Accounts.antt =====
-- internal/api/compact_cache.go: the map and the list of a shard hold the same elements, and `used` is
-- the sum of their sizes.
use bgp_api.Base.{
  ℕ, suc, ◌+◌, ◌<◌, ◌≡◌, ◌≢◌, ◌↔◌, inl, inr, refl, sym, ap, ◌∙◌, arith, true, false, Bytes, List,
  [], ◌∷◌, length, All, Option, none, some, ◌==◌, ==_refl, if◌then◌else◌, Bool-cases, Option-cases,
}
use bgp_api.Golang.ByteSlice.{bytes_equal, compare_bytes}
use bgp_api.Server.ResponseCache.{
  Element, Shard, remove_element, evict_element, cache_entry_overhead, shard_get,
}

pub bytes_equal_refl : (a : Bytes) → bytes_equal a a ≡ true
unfolding compare_bytes
bytes_equal_refl [] = refl
bytes_equal_refl (x ∷ a) = ground (arith, bytes_equal_refl a)

pub bytes_equal_sound : (a b : Bytes) → bytes_equal a b ≡ true → a ≡ b
unfolding compare_bytes
bytes_equal_sound [] [] h = refl
bytes_equal_sound [] (y ∷ b) h = cc
bytes_equal_sound (x ∷ a) [] h = cc
bytes_equal_sound (x ∷ a) (y ∷ b) h =
    let p : (x ≡ y) × (bytes_equal a b ≡ true) = ground arith in
    rw (p.0, bytes_equal_sound a b p.1) refl

bytes_equal_iff : (a b : Bytes) → (bytes_equal a b ≡ true) ↔ (a ≡ b)
bytes_equal_iff a b = (bytes_equal_sound a b, λ e. rw e (bytes_equal_refl b))

abbrev pub total : List Element → ℕ
total [] = 0
total (e ∷ es) = e.size + total es

-- The element that has a key.
abbrev pub find : Bytes → List Element → Option Element
find k [] = none
find k (e ∷ es) = if bytes_equal k e.key then some e else find k es

abbrev pub Apart : Element → Element → Type 0
Apart e d = (e.id ≢ d.id) × (bytes_equal e.key d.key ≡ false) × (bytes_equal d.key e.key ≡ false)

abbrev pub Distinct : List Element → Type 0
Distinct [] = Unit {0}
Distinct (e ∷ es) = All (Apart e) es × Distinct es

abbrev pub IsSized : Element → Type 0
IsSized e = e.size ≡ length e.key + length e.value + cache_entry_overhead

pub record IsShard (s : Shard) : Type 0 where
  pub used : s.used ≡ total s.lru
  pub found : (k : Bytes) → s.entries k ≡ find k s.lru
  pub distinct : Distinct s.lru
  pub fresh : All (λ e. e.id < s.next_id) s.lru
  pub sized : All IsSized s.lru

pub All-remove_element :
    (P : Element → Type 0) (id : ℕ) (es : List Element) → All P es → All P (remove_element id es)
unfolding remove_element
All-remove_element P id [] h = tt
All-remove_element P id (e ∷ es) h = elim (Bool-cases (e.id == id)) [
  | inl same ↦ rw same h.1
  | inr other ↦ rw other (h.0, All-remove_element P id es h.1)
]

pub Distinct-remove_element :
    (id : ℕ) (es : List Element) → Distinct es → Distinct (remove_element id es)
unfolding remove_element
Distinct-remove_element id [] h = tt
Distinct-remove_element id (e ∷ es) h = elim (Bool-cases (e.id == id)) [
  | inl same ↦ rw same h.1
  | inr other ↦ rw other (All-remove_element (Apart e) id es h.0, Distinct-remove_element id es h.1)
]

find-Apart : (e : Element) (es : List Element) → All (Apart e) es → find e.key es ≡ none
find-Apart e [] h = refl
find-Apart e (d ∷ es) h = rw (h.0.1) (find-Apart e es h.1)

-- An element that `find` gives has the key, and is apart from the others.
pub record Taken (k : Bytes) (e : Element) (es : List Element) : Type 0 where
  pub key : k ≡ e.key
  pub rest :
      (j : Bytes)
      → find j (remove_element e.id es) ≡ (if bytes_equal j e.key then none else find j es)
  pub apart : All (Apart e) (remove_element e.id es)
  pub total_rest : total es ≡ e.size + total (remove_element e.id es)
  pub length_rest : length es ≡ suc (length (remove_element e.id es))

abbrev without : Bytes → Element → List Element → Option Element
without j e es = if bytes_equal j e.key then none else find j es

Taken-first :
    (k : Bytes) (e : Element) (es : List Element)
    → bytes_equal k e.key ≡ true
    → Distinct (e ∷ es)
    → Taken k e (e ∷ es)
unfolding remove_element
Taken-first k e es h d =
    let removed : remove_element e.id (e ∷ es) ≡ es = rw (==_refl e.id) refl in
    record {
      key = bytes_equal_sound k e.key h;
      rest = λ j. rw removed (elim (Bool-cases (bytes_equal j e.key)) [
        | inl same ↦ rw (same, bytes_equal_sound j e.key same) (find-Apart e es d.0)
        | inr other ↦ rw other refl
      ]);
      apart = rw removed d.0;
      total_rest = rw removed refl;
      length_rest = rw removed refl;
    }

All-find :
    (P : Element → Type 0) (k : Bytes) (es : List Element) {e : Element}
    → All P es
    → find k es ≡ some e
    → P e
All-find P k [] h f = cc
All-find P k (d ∷ es) {e} h f = elim (Bool-cases (bytes_equal k d.key)) [
  | inl same ↦
      let at : some d ≡ some e = rw same at f in
      let same_element : d ≡ e = cc in rw (sym same_element) h.0
  | inr other ↦ All-find P k es h.1 (rw other at f)
]

-- The element is behind another one.
Taken-next :
    (k : Bytes) (f e : Element) (es : List Element)
    → Apart f e
    → All (Apart f) es
    → All (Apart e) (f ∷ [])
    → Taken k e es
    → Taken k e (f ∷ es)
unfolding remove_element
Taken-next k f e es a fs b t =
    let id_test : (f.id == e.id) ≡ false = ground (arith, a.0) in
    let removed : remove_element e.id (f ∷ es) ≡ f ∷ remove_element e.id es = rw id_test refl in
    record {
      key = t.key;
      rest = λ j. rw removed (elim (Bool-cases (bytes_equal j f.key)) [
        | inl same ↦
            let ne : bytes_equal j e.key ≡ false = rw (bytes_equal_sound j f.key same) a.1 in
            rw (same, ne) refl
        | inr other ↦ rw other (t.rest j)
      ]);
      apart = rw removed (b.0, t.apart);
      total_rest = rw removed (omega (arith, t.total_rest));
      length_rest = rw removed (ap suc t.length_rest);
    }

pub find-Taken :
    (k : Bytes) (es : List Element) {e : Element} → Distinct es → find k es ≡ some e → Taken k e es
find-Taken k [] d h = cc
find-Taken k (f ∷ es) {e} d h = elim (Bool-cases (bytes_equal k f.key)) [
  | inl same ↦
      let at : some f ≡ some e = rw same at h in
      let same_element : f ≡ e = cc in rw (sym same_element) (Taken-first k f es same d)
  | inr other ↦
      let later : find k es ≡ some e = rw other at h in
      let a : Apart f e = All-find (Apart f) k es d.0 later in
      Taken-next k f e es a d.0 ((λ p. a.0 (sym p), a.2, a.1), tt) (find-Taken k es d.1 later)
]

-- An element is taken out of the list and out of the map: the loop of Add at one element.
pub evict_element-IsShard :
    (s : Shard) (e : Element) → IsShard s → find e.key s.lru ≡ some e → IsShard (evict_element s e)
unfolding evict_element
evict_element-IsShard s e h f =
    let t = find-Taken e.key s.lru h.distinct f in
    record {
      used = omega (arith, h.used, t.total_rest);
      found = λ k. ap (λ o. if bytes_equal k e.key then none else o) (h.found k) ∙ sym (t.rest k);
      distinct = Distinct-remove_element e.id s.lru h.distinct;
      fresh = All-remove_element (λ d. d.id < s.next_id) e.id s.lru h.fresh;
      sized = All-remove_element IsSized e.id s.lru h.sized;
    }

moved_found :
    (key : Bytes) (e : Element) (es : List Element) (k : Bytes)
    → find key es ≡ some e
    → Taken key e es
    → find k es ≡ find k (e ∷ remove_element e.id es)
moved_found key e es k f t = elim (Bool-cases (bytes_equal k e.key)) [
  | inl same ↦
      let at_key : k ≡ key = bytes_equal_sound k e.key same ∙ sym t.key in rw same (rw at_key f)
  | inr other ↦
      let r : find k (remove_element e.id es) ≡ find k es = rw other at (t.rest k) in
      rw (other, r) refl
]

-- Get keeps a shard's map, list and used bytes in agreement.
pub shard_get-IsShard : (s : Shard) (key : Bytes) → IsShard s → IsShard (shard_get s key).1
unfolding shard_get
shard_get-IsShard s key h = elim (Option-cases (s.entries key)) [
  | inl absent ↦ rw (shard_get, absent) h
  | inr (e, present) ↦
      let f : find key s.lru ≡ some e = sym (h.found key) ∙ present in
      let t = find-Taken key s.lru h.distinct f in
      rw (shard_get, present)
        (record {
          used = omega (arith, h.used, t.total_rest);
          found = λ k. h.found k ∙ moved_found key e s.lru k f t;
          distinct = (t.apart, Distinct-remove_element e.id s.lru h.distinct);
          fresh = (
            All-find (λ d. d.id < s.next_id) key s.lru h.fresh f,
            All-remove_element (λ d. d.id < s.next_id) e.id s.lru h.fresh,
          );
          sized =
              (All-find IsSized key s.lru h.sized f, All-remove_element IsSized e.id s.lru h.sized);
        })
]
