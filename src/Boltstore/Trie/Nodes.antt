-- ===== src/Boltstore/Trie/Nodes.antt =====
-- The list of nodes of a trie under the changes that the builders make.
use bgp_api.Base.{
  ℕ, zero, suc, ◌<◌, ◌≡◌, ◌≢◌, refl, ap, arith, List, [], ◌∷◌, ◌++◌, length, get_elem?, some,
}
use bgp_api.Boltstore.Trie.{Node, modify}

module _ {P : Type 0} where
  pub get-modify_self :
      (nodes : List (Node P)) (i : ℕ) (f : Node P → Node P) {n : Node P}
      → get_elem? nodes i ≡ some n
      → get_elem? (modify nodes i f) i ≡ some (f n)
  unfolding modify
  get-modify_self [] i f h = cc
  get-modify_self (m ∷ nodes) zero f h = ap some (ap f (cc))
  get-modify_self (m ∷ nodes) (suc i) f h = get-modify_self nodes i f h

  pub get-modify_ne :
      (nodes : List (Node P)) (i j : ℕ) (f : Node P → Node P)
      → i ≢ j
      → get_elem? (modify nodes i f) j ≡ get_elem? nodes j
  unfolding modify
  get-modify_ne [] i j f h = refl
  get-modify_ne (m ∷ nodes) zero zero f h = absurd (h refl)
  get-modify_ne (m ∷ nodes) zero (suc j) f h = refl
  get-modify_ne (m ∷ nodes) (suc i) zero f h = refl
  get-modify_ne (m ∷ nodes) (suc i) (suc j) f h = get-modify_ne nodes i j f (λ e. h (ap suc e))

  pub get-append :
      (nodes : List (Node P)) (m : Node P) (j : ℕ) {n : Node P}
      → get_elem? nodes j ≡ some n
      → get_elem? (nodes ++ (m ∷ [])) j ≡ some n
  get-append [] m j h = cc
  get-append (x ∷ nodes) m zero h = h
  get-append (x ∷ nodes) m (suc j) h = get-append nodes m j h

  pub get-append_last :
      (nodes : List (Node P)) (m : Node P) → get_elem? (nodes ++ (m ∷ [])) (length nodes) ≡ some m
  get-append_last [] m = refl
  get-append_last (x ∷ nodes) m = get-append_last nodes m

  -- A node of the longer list is an old one or the last one.
  pub data Appended (nodes : List (Node P)) (m n : Node P) (j : ℕ) : Type 0 where
    old : get_elem? nodes j ≡ some n → Appended nodes m n j
    last : j ≡ length nodes → n ≡ m → Appended nodes m n j

  Appended-suc :
      {x m n : Node P} {nodes : List (Node P)} {j : ℕ}
      → Appended nodes m n j
      → Appended (x ∷ nodes) m n (suc j)
  Appended-suc (old h) = old h
  Appended-suc (last e f) = last (ap suc e) f

  pub get-append_inv :
      (nodes : List (Node P)) (m : Node P) (j : ℕ) {n : Node P}
      → get_elem? (nodes ++ (m ∷ [])) j ≡ some n
      → Appended nodes m n j
  get-append_inv [] m zero h = last refl ((cc))
  get-append_inv [] m (suc j) h = cc
  get-append_inv (x ∷ nodes) m zero h = old h
  get-append_inv (x ∷ nodes) m (suc j) h = Appended-suc (get-append_inv nodes m j h)

  pub get-lt :
      (nodes : List (Node P)) (j : ℕ) {n : Node P} → get_elem? nodes j ≡ some n → j < length nodes
  get-lt [] j h = cc
  get-lt (x ∷ nodes) zero h = omega arith
  get-lt (x ∷ nodes) (suc j) h = omega (arith, get-lt nodes j h)

  -- A node of the modified list is an unchanged one or the changed one.
  pub data Modified (nodes : List (Node P)) (i : ℕ) (f : Node P → Node P) (n : Node P) (j : ℕ)
      : Type 0 where
    other : i ≢ j → get_elem? nodes j ≡ some n → Modified nodes i f n j
    changed : i ≡ j → (m : Node P) → get_elem? nodes i ≡ some m → n ≡ f m → Modified nodes i f n j

  Modified-suc :
      {nodes : List (Node P)} {i : ℕ} {f : Node P → Node P} {n x : Node P} {j : ℕ}
      → Modified nodes i f n j
      → Modified (x ∷ nodes) (suc i) f n (suc j)
  Modified-suc (other h e) = other (λ p. h (omega arith)) e
  Modified-suc (changed e m g h) = changed (ap suc e) m g h

  pub get-modify_inv :
      (nodes : List (Node P)) (i j : ℕ) (f : Node P → Node P) {n : Node P}
      → get_elem? (modify nodes i f) j ≡ some n
      → Modified nodes i f n j
  unfolding modify
  get-modify_inv [] i j f h = cc
  get-modify_inv (x ∷ nodes) zero zero f h = changed refl x refl ((cc))
  get-modify_inv (x ∷ nodes) zero (suc j) f h = other (λ e. absurd (omega arith)) h
  get-modify_inv (x ∷ nodes) (suc i) zero f h = other (λ e. absurd (omega arith)) h
  get-modify_inv (x ∷ nodes) (suc i) (suc j) f h = Modified-suc (get-modify_inv nodes i j f h)
