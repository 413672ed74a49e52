-- ===== src/RadixTree/Paths.antt =====
-- Paths of a radix tree, as a reader checks them who has the root hash alone (RadixTree.ts).
use mathlib.Core.Path.{subst}
use carmentis_node.Base.{
  ◌>>=◌, bytes_eq, bytes_eq_iff, ap, ℕ, zero, suc, ◌+◌, ◌-◌, ◌*◌, ◌/◌, ◌≡◌, refl, ◌≢◌, sym, ◌∙◌,
  true, false, ◌⊎◌, inl, inr, Option, none, some, List, [], ◌∷◌, Bytes, ◌==◌, Bool-cases,
  Option-cases, Result, ok, >>=-eq-ok, get_or, drop, arith,
}
use carmentis_node.Database.Stores.{Table, Database}
use carmentis_node.RadixTree.Nodes.{
  RadixSdk, some_nonzero, mask_of, nibble_at, has_bit, rest_length,
}
use carmentis_node.RadixTree.Read.{get_from_storage, get_root_hash, read_value, get_pair}

module _ (sdk : RadixSdk) where
  -- The depth of a node with so many nibbles below it, and the hash of its child on the path of a key.
  abbrev depth_of : ℕ → ℕ
  depth_of below = sdk.hash_size * 2 - below

  abbrev child_of : ℕ → Bytes → Bytes → Option Bytes
  child_of below key node =
      get_or (sdk.get_hash_list (mask_of node) node)
        (nibble_at key (depth_of below / 2) (depth_of below)) none

  -- Nodes lead from a hash to a value: each has the hash that the one above holds for the nibble of
  -- the key, and the last is a leaf that has the rest of the key and the value.
  abbrev pub IsPath : ℕ → Bytes → Bytes → List Bytes → Bytes → Type 0
  IsPath zero key hash [] value = hash ≡ value
  IsPath zero key hash (node ∷ nodes) value = ⊥
  IsPath (suc below) key hash [] value = ⊥
  IsPath (suc below) key hash (node ∷ nodes) value =
      (sdk.sha256 node ≡ hash)
      × (((mask_of node == 0) ≡ true)
            × (nodes ≡ [])
            × (sdk.key_difference (depth_of (suc below)) key node ≡ false)
            × (value ≡ drop (2 + rest_length sdk (depth_of (suc below))) node)
          ⊎ ((mask_of node == 0) ≡ false)
            × (has_bit (mask_of node)
                  (nibble_at key (depth_of (suc below) / 2) (depth_of (suc below)))
                ≡ true)
            × ((child : Bytes) × (child_of (suc below) key node ≡ some child)
                × IsPath below key child nodes value))

  pub IsPath-head :
      (below : ℕ) (key hash node : Bytes) (nodes : List Bytes) (value : Bytes)
      → IsPath below key hash (node ∷ nodes) value
      → sdk.sha256 node ≡ hash
  IsPath-head zero key hash node nodes value p = absurd p
  IsPath-head (suc below) key hash node nodes value p = p.0

  -- Two different contents with one hash.
  abbrev pub IsCollision : Type 0
  IsCollision = (a : Bytes) × (b : Bytes) × (a ≢ b) × (sdk.sha256 a ≡ sdk.sha256 b)

  true-ne-false : true ≡ false → ⊥
  true-ne-false h = cc

  -- The hash and the key determine the value of a path, unless a collision is at hand.
  pub IsPath-value :
      (below : ℕ) (key hash : Bytes) (nodes others : List Bytes) (value other : Bytes)
      → IsPath below key hash nodes value
      → IsPath below key hash others other
      → (value ≡ other) ⊎ IsCollision
  IsPath-value zero key hash [] [] value other p q = inl (sym p ∙ q)
  IsPath-value zero key hash [] (m ∷ others) value other p q = absurd q
  IsPath-value zero key hash (n ∷ nodes) others value other p q = absurd p
  IsPath-value (suc below) key hash [] others value other p q = absurd p
  IsPath-value (suc below) key hash (n ∷ nodes) [] value other p q = absurd q
  IsPath-value (suc below) key hash (n ∷ nodes) (m ∷ others) value other (p, ps) q =
      elim (Bool-cases (bytes_eq n m)) [
        | inr apart ↦ inr (n, m, λ e. cc (apart, (bytes_eq_iff n m).1 e), p ∙ sym q.0)
        | inl same ↦
            let again : IsPath (suc below) key hash (n ∷ others) other =
              subst (λ x. IsPath (suc below) key hash (x ∷ others) other)
                (sym ((bytes_eq_iff n m).0 same)) q in
            elim ps [
              | inl (leaf, none_below, k, v) ↦ elim again.1 [
                | inl (leaf', none_below', k', v') ↦ inl (v ∙ sym v')
                | inr (inner, bit, deep) ↦ absurd (true-ne-false (sym leaf ∙ inner))
              ]
              | inr (inner, bit, (child, c, rest)) ↦ elim again.1 [
                | inl (leaf, none_below, k, v) ↦ absurd (true-ne-false (sym leaf ∙ inner))
                | inr (inner', bit', (child', c', rest')) ↦
                    let joined : child' ≡ child = cc (c, c') in
                    IsPath-value below key child nodes others value other rest
                      (subst (λ h. IsPath below key h others other) joined rest')
              ]
            ]
      ]

  module _ (db : Database) (table : Table) where
    -- Every node but the entry of the root, whose key is all zeros, is stored under its hash, and
    -- points to no hash that is all zeros.
    abbrev pub IsHashed : db.Store → Type 0
    IsHashed s =
        (hash node : Bytes)
        → some_nonzero hash ≡ true
        → get_from_storage sdk db table s hash ≡ ok node
        → (sdk.sha256 node ≡ hash)
          × ((i : ℕ) (child : Bytes)
              → get_or (sdk.get_hash_list (mask_of node) node) i none ≡ some child
              → some_nonzero child ≡ true)

    -- The tree is not empty.
    abbrev pub IsGrown : db.Store → Type 0
    IsGrown s =
        (root_hash : Bytes)
        → get_root_hash sdk db table s ≡ ok root_hash
        → some_nonzero root_hash ≡ true

    read_none :
        (below : ℕ) (s : db.Store) (key : Bytes) (read : Option Bytes) (nodes : List Bytes)
        → read_value sdk db table below s key none ≡ ok (read, nodes)
        → read ≡ none
    unfolding read_value
    read_none zero s key read nodes e = ground (arith, e)
    read_none (suc below) s key read nodes e = ground (arith, e)

    -- The proof that a read gives is a path to its value.
    pub read_value-IsPath :
        (below : ℕ) (s : db.Store) (key hash value : Bytes) (nodes : List Bytes)
        → IsHashed s
        → some_nonzero hash ≡ true
        → read_value sdk db table below s key (some hash) ≡ ok (some value, nodes)
        → IsPath below key hash nodes value
    unfolding read_value
    read_value-IsPath zero s key hash value [] hashed proper e = ground (arith, e)
    read_value-IsPath zero s key hash value (n ∷ nodes) hashed proper e = ground (arith, e)
    read_value-IsPath (suc below) s key hash value nodes hashed proper e =
        let (node, found, rest) = >>=-eq-ok (get_from_storage sdk db table s hash) _ e in
        let (is_node, points) = hashed hash node proper found in
        elim (Bool-cases (mask_of node == 0)) [
          | inl leaf ↦ elim (Bool-cases (sdk.key_difference (depth_of (suc below)) key node)) [
            | inl apart ↦ ground (arith, leaf, apart, rest)
            | inr alike ↦
                let last : nodes ≡ node ∷ [] = ground (arith, leaf, alike, rest) in
                let kept : value ≡ drop (2 + rest_length sdk (depth_of (suc below))) node =
                  ground (arith, leaf, alike, rest) in
                subst (λ l. IsPath (suc below) key hash l value) (sym last)
                  (is_node, inl (leaf, refl, alike, kept))
          ]
          | inr inner ↦
              elim (Bool-cases (
                has_bit (mask_of node)
                  (nibble_at key (depth_of (suc below) / 2) (depth_of (suc below))))) [
                    | inr missing ↦ ground (arith, inner, missing, rest)
                    | inl bit ↦
                        let next : Option Bytes × List Bytes → Result (Option Bytes × List Bytes) =
                          λ found'. ok (found'.0, node ∷ found'.1) in
                        let chain : (read_value sdk db table below s key
                                (child_of (suc below) key node)
                              >>= next)
                            ≡ ok (some value, nodes) =
                          ground (arith, inner, bit, rest) in
                        let ((read, others), got, ended) =
                          >>=-eq-ok
                            (read_value sdk db table below s key (child_of (suc below) key node))
                            next chain in
                        let is_value : read ≡ some value = ground (arith, ended) in
                        let longer : node ∷ others ≡ nodes = ground (arith, ended) in
                        elim (Option-cases (child_of (suc below) key node)) [
                          | inl none_there ↦
                              let nothing : read_value sdk db table below s key none
                                  ≡ ok (read, others) =
                                subst
                                  (λ c. read_value sdk db table below s key c ≡ ok (read, others))
                                  none_there got in
                              ground (arith, read_none below s key read others nothing, is_value)
                          | inr (child, there) ↦
                              let got_below : read_value sdk db table below s key (some child)
                                  ≡ ok (some value, others) =
                                subst
                                  (λ c.
                                    read_value sdk db table below s key c ≡ ok (some value, others))
                                  there (got ∙ ap (λ v. ok (v, others)) is_value) in
                              let below_child =
                                read_value-IsPath below s key child value others hashed
                                  (points
                                    (nibble_at key (depth_of (suc below) / 2)
                                      (depth_of (suc below)))
                                    child there)
                                  got_below in
                              subst (λ l. IsPath (suc below) key hash l value) longer
                                (is_node, inr (inner, bit, (child, there, below_child)))
                        ]
                  ]
        ]

    -- The same for the whole key, from the hash of the root.
    pub get_pair-IsPath :
        (s : db.Store) (key value : Bytes) (nodes : List Bytes)
        → IsHashed s
        → IsGrown s
        → get_pair sdk db table s key ≡ ok (some value, nodes)
        → (root_hash : Bytes) × (get_root_hash sdk db table s ≡ ok root_hash)
          × IsPath (sdk.hash_size * 2) key root_hash nodes value
    unfolding get_pair
    get_pair-IsPath s key value nodes hashed grown e =
        let (root_hash, found, rest) = >>=-eq-ok (get_root_hash sdk db table s) _ e in
        (
          root_hash,
          found,
          read_value-IsPath (sdk.hash_size * 2) s key root_hash value nodes hashed
              (grown root_hash found) rest,
        )
