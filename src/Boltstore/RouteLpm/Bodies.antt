-- ===== src/Boltstore/RouteLpm/Bodies.antt =====
-- internal/boltstore/route_lpm.go: the parts that Encode builds side by side.
use bgp_api.Base.{
  ℕ, zero, suc, ◌+◌, ◌*◌, ◌≤◌, ◌≡◌, inl, inr, refl, sym, ap, ◌∙◌, arith, Bytes, List, [], ◌∷◌, ◌++◌,
  append_assoc, length, length-append, get_elem?, All, some, if◌then◌else◌, Bool-cases,
}
use bgp_api.Boltstore.Keys.{encode_ids}
use bgp_api.Boltstore.Trie.{Outcome, ok, err, panic, stuck, Node, no_record_id}
use bgp_api.Boltstore.RouteLpm.{Ids, ids_of, total_ids, has_zero, node_bytes, encode_nodes}
use bgp_api.Boltstore.RouteLpm.Layout.{IsNode, NodeAt, offset_at, length-node_bytes}

abbrev pub Parts : Type 0
Parts = Bytes × Bytes

abbrev pub body_of : Outcome Parts → Bytes
body_of (ok p) = p.0
body_of (err e) = []
body_of panic = []
body_of stuck = []

abbrev pub tail_of : Outcome Parts → Bytes
tail_of (ok p) = p.1
tail_of (err e) = []
tail_of panic = []
tail_of stuck = []

-- What the first node adds to the parts of the others.
abbrev pub with_first : Node Ids → ℕ → Outcome Parts → Outcome Parts
with_first n o (ok p) = ok (node_bytes n o ++ p.0, encode_ids (ids_of n.payload) ++ p.1)
with_first n o (err e) = err e
with_first n o panic = panic
with_first n o stuck = stuck

encode_cons :
    (n : Node Ids) (ns : List (Node Ids)) (o : ℕ)
    → encode_nodes (n ∷ ns) o ≡ (
        if has_zero (ids_of n.payload)
        then err no_record_id
        else with_first n o (encode_nodes ns (o + length (ids_of n.payload))))
unfolding encode_nodes
encode_cons n ns o = refl

-- The parts of the nodes behind the first one.
pub record Later (n : Node Ids) (ns : List (Node Ids)) (o : ℕ) (body ids : Bytes) : Type 0 where
  pub rest : Bytes
  pub tail : Bytes
  pub result : encode_nodes ns (o + length (ids_of n.payload)) ≡ ok (rest, tail)
  pub split : body ≡ node_bytes n o ++ rest
  pub join : ids ≡ encode_ids (ids_of n.payload) ++ tail

pub later :
    (n : Node Ids) (ns : List (Node Ids)) (o : ℕ) (r : Outcome Parts) {body tail : Bytes}
    → encode_nodes ns (o + length (ids_of n.payload)) ≡ r
    → with_first n o r ≡ ok (body, tail)
    → Later n ns o body tail
later n ns o (ok p) q e = record {
  rest = p.0;
  tail = p.1;
  result = q;
  split = sym (ap body_of e);
  join = sym (ap tail_of e);
}
later n ns o (err x) q e = cc
later n ns o panic q e = cc
later n ns o stuck q e = cc

pub encode_nodes-Later :
    (n : Node Ids) (ns : List (Node Ids)) (o : ℕ) {body tail : Bytes}
    → encode_nodes (n ∷ ns) o ≡ ok (body, tail)
    → Later n ns o body tail
encode_nodes-Later n ns o {body} {tail} h = elim (Bool-cases (has_zero (ids_of n.payload))) [
  | inl zeros ↦
      let e : ◌≡◌ {A = Outcome Parts} (err no_record_id) (ok (body, tail)) =
        simp zeros at (sym (encode_cons n ns o) ∙ h) in
      cc
  | inr fine ↦ later n ns o _ refl (simp fine at (sym (encode_cons n ns o) ∙ h))
]

pub body_at :
    (ns : List (Node Ids)) (o i : ℕ) (n : Node Ids) {body tail : Bytes}
    → All IsNode ns
    → encode_nodes ns o ≡ ok (body, tail)
    → get_elem? ns i ≡ some n
    → NodeAt body (i * 33) n (o + offset_at ns i)
body_at [] o i n hn h at = cc
body_at (m ∷ ns) o zero n hn h at =
    let l = encode_nodes-Later m ns o h in
    let e : m ≡ n = cc in
    let z : o ≡ o + 0 = omega arith in
    rw (sym e) (record {
      before = [];
      after = l.rest;
      layout = l.split ∙ ap (λ t. node_bytes m t ++ l.rest) z;
      size = omega arith;
    })
body_at (m ∷ ns) o (suc i) n hn h at =
    let l = encode_nodes-Later m ns o h in
    let r = body_at ns (o + length (ids_of m.payload)) i n hn.1 l.result at in
    let z : o + length (ids_of m.payload) + offset_at ns i
        ≡ o + (length (ids_of m.payload) + offset_at ns i) =
      omega arith in
    record {
      before = node_bytes m o ++ r.before;
      after = r.after;
      layout =
          l.split
          ∙ ap (λ t. node_bytes m o ++ t) r.layout
          ∙ ap (λ t. node_bytes m o ++ (r.before ++ (node_bytes n t ++ r.after))) z
          ∙ sym (append_assoc (node_bytes m o) r.before _);
      size = rw (length-append, length-node_bytes m o hn.0) (omega (arith, r.size));
    }

pub offset_at_le :
    (ns : List (Node Ids)) (i : ℕ) {n : Node Ids}
    → get_elem? ns i ≡ some n
    → offset_at ns i + length (ids_of n.payload) ≤ total_ids ns
offset_at_le [] i h = cc
offset_at_le (m ∷ ns) zero {n} h = let e : m ≡ n = cc in rw (sym e) (omega arith)
offset_at_le (m ∷ ns) (suc i) h = omega (arith, offset_at_le ns i h)
