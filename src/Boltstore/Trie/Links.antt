-- ===== src/Boltstore/Trie/Links.antt =====
-- internal/boltstore/route_lpm.go and selection_lpm.go: how the nodes of a trie hang together, and that
-- it stays so when a node is appended or changed.
use bgp_api.Base.{
  ℕ, suc, ◌≤◌, ◌<◌, ◌≡◌, refl, sym, ap, ◌∙◌, List, [], ◌∷◌, ◌++◌, get_elem?, Option, some,
}
use bgp_api.Boltstore.Keys.{Address}
use bgp_api.Boltstore.Keys.Order.{IsAddress}
use bgp_api.Boltstore.Lpm.{route_lpm_bit, width_of}
use bgp_api.Boltstore.Lpm.Common.{Agree}
use bgp_api.Boltstore.Trie.{Node, child, modify}
use bgp_api.Boltstore.Trie.Nodes.{
  get-modify_self, get-modify_ne, get-append, get-append_inv, Appended, old, last, get-modify_inv,
  Modified, other, changed,
}
use native.Mathlib.Decide.{ℕ_discrete}

pub same_node : {P : Type 0} {o : Option (Node P)} (m n : Node P) → o ≡ some m → o ≡ some n → m ≡ n
same_node m n h g = cc

module _ {P : Type 0} (version : ℕ) where
  -- The node at `k` lies in the prefix of a length, on the branch of the bit behind it.
  pub record Link (nodes : List (Node P)) (prefix : Address) (len branch k : ℕ) : Type 0 where
    pub target : Node P
    pub at : get_elem? nodes k ≡ some target
    pub longer : len < target.prefix_length
    pub inside : Agree version target.prefix prefix len
    pub bit : route_lpm_bit target.prefix version len ≡ branch

  -- The references of a node lead to nodes of its two halves.
  abbrev pub Linked : List (Node P) → Node P → Type 0
  Linked nodes n =
      (branch k : ℕ)
      → branch < 2
      → child n branch ≡ suc k
      → Link nodes n.prefix n.prefix_length branch k

  pub record IsNode (nodes : List (Node P)) (n : Node P) : Type 0 where
    pub address : IsAddress n.prefix
    pub length : n.prefix_length ≤ width_of version
    pub links : Linked nodes n

  -- Each reference leads to a node with a longer prefix, which lies in that of the node that refers
  -- to it and continues with the bit of the branch.
  abbrev pub IsTrie : List (Node P) → Type 0
  IsTrie nodes = (i : ℕ) (n : Node P) → get_elem? nodes i ≡ some n → IsNode nodes n

  -- A node that has kept its prefix.
  pub record Kept (nodes : List (Node P)) (i : ℕ) (n : Node P) : Type 0 where
    pub new : Node P
    pub at : get_elem? nodes i ≡ some new
    pub prefix : new.prefix ≡ n.prefix
    pub length : new.prefix_length ≡ n.prefix_length

  abbrev pub Grown : List (Node P) → List (Node P) → Type 0
  Grown before after = (i : ℕ) (n : Node P) → get_elem? before i ≡ some n → Kept after i n

  Link-Grown :
      {before after : List (Node P)} {prefix : Address} {len branch k : ℕ}
      → Grown before after
      → Link before prefix len branch k
      → Link after prefix len branch k
  Link-Grown g l =
      let kept = g _ l.target l.at in
      record {
        target = kept.new;
        at = kept.at;
        longer = rw kept.length l.longer;
        inside = rw kept.prefix l.inside;
        bit = rw kept.prefix l.bit;
      }

  pub IsNode-Grown :
      {before after : List (Node P)} {n : Node P}
      → Grown before after
      → IsNode before n
      → IsNode after n
  IsNode-Grown g p = record {
    address = p.address;
    length = p.length;
    links = λ b k hb h. Link-Grown g (p.links b k hb h);
  }

  pub Grown-refl : (nodes : List (Node P)) → Grown nodes nodes
  Grown-refl nodes i n h = record { new = n; at = h; prefix = refl; length = refl }

  pub Grown-trans :
      (first second third : List (Node P))
      → Grown first second
      → Grown second third
      → Grown first third
  Grown-trans first second third f g i n h =
      let a = f i n h in
      let b = g i a.new a.at in
      record { new = b.new; at = b.at; prefix = b.prefix ∙ a.prefix; length = b.length ∙ a.length }

  pub append-Grown : (nodes : List (Node P)) (m : Node P) → Grown nodes (nodes ++ (m ∷ []))
  append-Grown nodes m i n h = record {
    new = n;
    at = get-append nodes m i h;
    prefix = refl;
    length = refl;
  }

  pub append-IsTrie :
      (nodes : List (Node P)) (m : Node P)
      → IsTrie nodes
      → IsNode nodes m
      → IsTrie (nodes ++ (m ∷ []))
  append-IsTrie nodes m t p i n h = from (get-append_inv nodes m i h)
    where
      from : Appended nodes m n i → IsNode (nodes ++ (m ∷ [])) n
      from (old e) = IsNode-Grown (append-Grown nodes m) (t i n e)
      from (last e f) = rw f (IsNode-Grown (append-Grown nodes m) p)

  -- A change of a node that keeps its prefix.
  abbrev pub Keeps : (Node P → Node P) → Node P → Type 0
  Keeps f n = ((f n).prefix ≡ n.prefix) × ((f n).prefix_length ≡ n.prefix_length)

  pub modify-Grown :
      (nodes : List (Node P)) (i : ℕ) (f : Node P → Node P) (n : Node P)
      → get_elem? nodes i ≡ some n
      → Keeps f n
      → Grown nodes (modify nodes i f)
  modify-Grown nodes i f n h k j m hm = elim (ℕ_discrete i j) [
    | yes same ↦
        let e : m ≡ n = same_node m n hm (rw same at h) in
        record {
          new = f n;
          at = rw (sym same) (get-modify_self nodes i f h);
          prefix = k.0 ∙ ap (λ x. x.prefix) (sym e);
          length = k.1 ∙ ap (λ x. x.prefix_length) (sym e);
        }
    | no ne ↦ record {
      new = m;
      at = get-modify_ne nodes i j f ne ∙ hm;
      prefix = refl;
      length = refl;
    }
  ]

  pub modify-IsTrie :
      (nodes : List (Node P)) (i : ℕ) (f : Node P → Node P) (n : Node P)
      → IsTrie nodes
      → get_elem? nodes i ≡ some n
      → Keeps f n
      → Linked nodes (f n)
      → IsTrie (modify nodes i f)
  modify-IsTrie nodes i f n t h k l j m hm = from (get-modify_inv nodes i j f hm)
    where
      grown : Grown nodes (modify nodes i f)
      grown = modify-Grown nodes i f n h k

      same : IsNode nodes (f n)
      same = record {
        address = rw k.0 (t i n h).address;
        length = rw k.1 (t i n h).length;
        links = l;
      }

      from : Modified nodes i f m j → IsNode (modify nodes i f) m
      from (other ne e) = IsNode-Grown grown (t j m e)
      from (changed e o g q) =
          let eq : o ≡ n = same_node o n g h in rw (q, eq) (IsNode-Grown grown same)
