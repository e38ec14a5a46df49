-- ===== src/NodeStatistics/AddNode.antt =====
-- addNode: a deleted offset is used again, and only without one the table grows.
use graphflowdb.Base.{
  ℕ, ◌+◌, ◌*◌, ◌/◌, ◌≤◌, ◌<◌, ◌≡◌, ◌≢◌, ◌⊎◌, inl, inr, refl, ap, ◌∙◌, Bool, true, false, List, [],
  ◌∷◌, none, some, arith, length, get_or, if◌then◌else◌, ◌==◌, contains,
}
use graphflowdb.NodeStatistics.{
  uint64_max, default_vector_capacity, NodeStatistics, Morsels, ok, undefined, find, is_deleted,
  add_node, last, drop_last,
}
use graphflowdb.NodeStatistics.Sets.{
  Sorted, contains-last, drop_last-Ascending, contains-drop_last, contains_bounds,
}
use graphflowdb.NodeStatistics.Validity.{IsValid, is_some, get_or-true}

-- Without deleted offsets the offset behind the last one is returned.
pub add_node_grows :
    (s : NodeStatistics)
    → s.num_tuples + 1 < uint64_max
    → s.deleted_node_offsets_per_morsel ≡ []
    → add_node s ≡ ok (s.num_tuples, record s { num_tuples = s.num_tuples + 1 })
unfolding add_node
add_node_grows s h e = ground arith

pub grown-IsValid :
    (s : NodeStatistics)
    → s.num_tuples + 1 < uint64_max
    → IsValid s
    → IsValid (record s { num_tuples = s.num_tuples + 1 })
unfolding is_deleted
grown-IsValid s h v = record {
  in_range = h;
  sorted = v.sorted;
  flags = v.flags;
  exist = λ x d. omega (arith, v.exist x d);
}

-- What addNode leaves when it uses the offset `x` again.
pub record Reused (s : NodeStatistics) (x : ℕ) (s' : NodeStatistics) : Type 0 where
  pub was_deleted : is_deleted s x ≡ true
  pub others : (y : ℕ) → is_deleted s' y ≡ (if x == y then false else is_deleted s y)
  pub same_count : s'.num_tuples ≡ s.num_tuples
  pub valid : IsValid s'

-- The first morsel's set shrinks to `w`, or its entry goes where the set was of one element.
module _ (s : NodeStatistics) (k x : ℕ) (xs : List ℕ) (rest : Morsels) (v : IsValid s)
    (e : s.deleted_node_offsets_per_morsel ≡ (k, x ∷ xs) ∷ rest) where
  first : Sorted 0 ((k, x ∷ xs) ∷ rest)
  first = rw e at v.sorted

  here : find k s.deleted_node_offsets_per_morsel ≡ some (x ∷ xs)
  unfolding find
  here = ground arith

  in_morsel : (y : ℕ) → contains y (x ∷ xs) ≡ true → y / default_vector_capacity ≡ k
  in_morsel y h =
      omega (arith, contains_bounds y (k * default_vector_capacity) _ (x ∷ xs) first.1 h)

  last_in : last x xs / default_vector_capacity ≡ k
  last_in = in_morsel (last x xs) (contains-last x xs)

  last_deleted : is_deleted s (last x xs) ≡ true
  unfolding is_deleted
  last_deleted = rw (last_in, here) (contains-last x xs)

  find_head :
      (j : ℕ)
      → find j s.deleted_node_offsets_per_morsel ≡ (if k == j then some (x ∷ xs) else find j rest)
  unfolding find
  find_head j = ground arith

  covered : k < length s.has_deleted_nodes_per_morsel
  covered = get_or-true s.has_deleted_nodes_per_morsel k (v.flags k ∙ ap is_some here)

  -- Enough about the new map: what is found in it, that it is sorted, and the flags.
  reused :
      (s' : NodeStatistics)
      → ((j : ℕ)
          → find j s'.deleted_node_offsets_per_morsel ≡ (
              if k == j
              then (elim (drop_last x xs) [ [] ↦ none | z ∷ zs ↦ some (z ∷ zs) ])
              else find j rest))
      → ((j : ℕ)
          → get_or s'.has_deleted_nodes_per_morsel j false
            ≡ is_some (find j s'.deleted_node_offsets_per_morsel))
      → Sorted 0 s'.deleted_node_offsets_per_morsel
      → s'.num_tuples ≡ s.num_tuples
      → Reused s (last x xs) s'
  reused s' found flagged sorted count = record {
    was_deleted = last_deleted;
    others = others;
    same_count = count;
    valid = record {
      in_range = omega (arith, v.in_range, count);
      sorted = sorted;
      flags = flagged;
      exist = λ y h. ground (arith, others y, v.exist y, count);
    };
  }
    where
      others : (y : ℕ) → is_deleted s' y ≡ (if last x xs == y then false else is_deleted s y)
      others y =
          unfold is_deleted in
          ground (
            arith,
            found (y / default_vector_capacity),
            find_head (y / default_vector_capacity),
            contains-drop_last y (k * default_vector_capacity) _ x xs first.1,
            last_in,
          )

add_node-Reused :
    (s : NodeStatistics) (k x y : ℕ) (ys : List ℕ) (rest : Morsels)
    → IsValid s
    → s.deleted_node_offsets_per_morsel ≡ (k, x ∷ y ∷ ys) ∷ rest
    → (s' : NodeStatistics) × (add_node s ≡ ok (last y ys, s')) × Reused s (last y ys) s'
unfolding add_node find
add_node-Reused s k x y ys rest v e =
    let whole = first s k x (y ∷ ys) rest v e in
    (
      record s { deleted_node_offsets_per_morsel = (k, x ∷ drop_last y ys) ∷ rest },
      ground arith,
      reused s k x (y ∷ ys) rest v e _ (λ j. refl)
          (λ j. ground (arith, v.flags j, find_head s k x (y ∷ ys) rest v e j))
          (
            whole.0,
            drop_last-Ascending (k * default_vector_capacity) _ x (y ∷ ys) whole.1,
            omega arith,
            whole.3,
          )
          refl,
    )

-- What a caller of addNode relies on.
pub record Added (s : NodeStatistics) (x : ℕ) (s' : NodeStatistics) : Type 0 where
  pub returned : add_node s ≡ ok (x, s')
  pub was_free : (is_deleted s x ≡ true) ⊎ (s.num_tuples ≤ x)
  pub exists : x < s'.num_tuples
  pub not_deleted : is_deleted s' x ≡ false
  pub others : (y : ℕ) → x ≢ y → is_deleted s' y ≡ is_deleted s y
  pub valid : IsValid s'

Added-new :
    (s : NodeStatistics)
    → IsValid s
    → s.num_tuples + 1 < uint64_max
    → s.deleted_node_offsets_per_morsel ≡ []
    → Added s s.num_tuples (record s { num_tuples = s.num_tuples + 1 })
unfolding is_deleted find
Added-new s v room e = record {
  returned = add_node_grows s room e;
  was_free = inr (omega arith);
  exists = omega arith;
  not_deleted = ground arith;
  others = λ y h. refl;
  valid = grown-IsValid s room v;
}

Added-again :
    (s s' : NodeStatistics) (x : ℕ)
    → IsValid s
    → add_node s ≡ ok (x, s')
    → Reused s x s'
    → Added s x s'
Added-again s s' x v returned used = record {
  returned = returned;
  was_free = inl used.was_deleted;
  exists = omega (arith, v.exist x used.was_deleted, used.same_count);
  not_deleted = ground (arith, used.others x);
  others = λ y h. ground (arith, used.others y);
  valid = used.valid;
}

-- The first morsel with deleted offsets has only one.
abbrev pub first_has_one : Morsels → Bool
first_has_one ((k, x ∷ []) ∷ rest) = true
first_has_one _ = false

fresh_by_morsels :
    (s : NodeStatistics) (m : Morsels)
    → IsValid s
    → s.num_tuples + 1 < uint64_max
    → s.deleted_node_offsets_per_morsel ≡ m
    → ((first_has_one m ≡ true) × (add_node s ≡ undefined))
      ⊎ ((first_has_one m ≡ false) × (x : ℕ) × (s' : NodeStatistics) × Added s x s')
unfolding add_node
fresh_by_morsels s [] v room e = inr (refl, s.num_tuples, _, Added-new s v room e)
fresh_by_morsels s ((k, []) ∷ rest) v room e = absurd (omega (arith, (rw e at v.sorted).2))
fresh_by_morsels s ((k, x ∷ []) ∷ rest) v room e = inl (refl, ground arith)
fresh_by_morsels s ((k, x ∷ y ∷ ys) ∷ rest) v room e =
    let (s', returned, used) = add_node-Reused s k x y ys rest v e in
    inr (refl, last y ys, s', Added-again s s' (last y ys) v returned used)

-- On valid statistics with room for one more tuple below UINT64_MAX, addNode is undefined exactly
-- when the first morsel with deleted offsets has only one. Else the offset that it returns was not
-- in use: it was deleted, or did not exist. Afterwards it exists and is not deleted, every other
-- offset is deleted as before, and the statistics stay valid.
pub add_node_fresh :
    (s : NodeStatistics)
    → IsValid s
    → s.num_tuples + 1 < uint64_max
    → ((first_has_one s.deleted_node_offsets_per_morsel ≡ true) × (add_node s ≡ undefined))
      ⊎ ((first_has_one s.deleted_node_offsets_per_morsel ≡ false)
          × (x : ℕ) × (s' : NodeStatistics) × Added s x s')
add_node_fresh s v room = fresh_by_morsels s s.deleted_node_offsets_per_morsel v room refl
