-- ===== src/NodeStatistics/Examples.antt =====
-- Runs of the node statistics, and uses of their theorems.
use graphflowdb.Base.{
  ℕ, ◌≤◌, ◌<◌, ◌≡◌, ◌↔◌, ◌⊎◌, refl, inl, Bool, true, false, [], ◌∷◌, arith, length, if◌then◌else◌,
  ◌==◌,
}
use graphflowdb.NodeStatistics.{
  uint64_max, NodeStatistics, ok, no_such_node, already_deleted, node_has_edges, undefined,
  is_deleted, add_node, delete_node, new_node_statistics, get_max_node_offset,
  get_deleted_node_offsets, load_all_deleted, load_deleted, set_insert, map_insert, map_set, find,
}
use graphflowdb.NodeStatistics.Validity.{IsValid}
use graphflowdb.NodeStatistics.AddNode.{first_has_one, Added, add_node_fresh}
use graphflowdb.NodeStatistics.Loading.{Reloaded, new_node_statistics-get_deleted_node_offsets}
use graphflowdb.NodeStatistics.Growth.{delete_node-add_node_undefined, empty_table}
use graphflowdb.NodeStatistics.DeleteNode.{delete_node_succeeds, delete_node_refused}
use graphflowdb.NodeStatistics.Selector.{
  Selection, set_deleted_node_offsets_for_morsel, live_positions, selects_live,
}

-- 2048 nodes, none deleted.
full : NodeStatistics
full = record {
  table_id = 0;
  num_tuples = 2048;
  has_deleted_nodes_per_morsel = false ∷ [];
  deleted_node_offsets_per_morsel = [];
}

-- The same with nodes 3 and 5 deleted.
holes : NodeStatistics
unfolding full
holes = record full {
  has_deleted_nodes_per_morsel = true ∷ [];
  deleted_node_offsets_per_morsel = (0, 3 ∷ 5 ∷ []) ∷ [];
}

abbrev edges_at_7 : ℕ → Bool
edges_at_7 x = x == 7

full-IsValid : IsValid full
unfolding full is_deleted find
full-IsValid = record {
  in_range = omega arith;
  sorted = tt;
  flags = λ k. ground arith;
  exist = λ x h. ground arith;
}

holes-IsValid : IsValid holes
unfolding holes is_deleted find
holes-IsValid = record {
  in_range = omega arith;
  sorted = omega arith;
  flags = λ k. ground arith;
  exist = λ x h. ground arith;
}

-- The constructor from the stored list gives the same statistics.
loads : new_node_statistics 0 2047 (5 ∷ 3 ∷ []) ≡ ok holes
unfolding new_node_statistics load_all_deleted load_deleted holes set_insert map_insert map_set find
loads = refl

delete_node_succeeds_example :
    (s' : NodeStatistics) × (delete_node edges_at_7 holes 9 ≡ ok s')
    × IsValid s'
    × (s'.num_tuples ≡ holes.num_tuples)
    × ((y : ℕ) → is_deleted s' y ≡ (if 9 == y then true else is_deleted holes y))
unfolding holes is_deleted find
delete_node_succeeds_example =
    delete_node_succeeds edges_at_7 holes 9 holes-IsValid (omega arith) refl refl (omega arith)

delete_node_refused_example :
    ((delete_node edges_at_7 holes 7 ≡ no_such_node) ↔ (holes.num_tuples ≤ 7))
    × ((delete_node edges_at_7 holes 7 ≡ already_deleted)
        ↔ ((7 < holes.num_tuples) × (is_deleted holes 7 ≡ true)))
    × ((delete_node edges_at_7 holes 7 ≡ node_has_edges)
        ↔ ((7 < holes.num_tuples) × (is_deleted holes 7 ≡ false) × (edges_at_7 7 ≡ true)))
delete_node_refused_example = delete_node_refused edges_at_7 holes 7 holes-IsValid

add_node_fresh_example :
    ((first_has_one holes.deleted_node_offsets_per_morsel ≡ true) × (add_node holes ≡ undefined))
    ⊎ ((first_has_one holes.deleted_node_offsets_per_morsel ≡ false)
        × (x : ℕ) × (s' : NodeStatistics) × Added holes x s')
add_node_fresh_example = add_node_fresh holes holes-IsValid (unfold holes full in omega arith)

delete_node-add_node_undefined_example :
    (s' : NodeStatistics) × (add_node full ≡ ok (2048, s'))
    × (delete_node edges_at_7 s' 2048 ≡ undefined)
unfolding full
delete_node-add_node_undefined_example =
    delete_node-add_node_undefined edges_at_7 full full-IsValid (omega arith) refl refl refl

-- The first addNode on a new table returns UINT64_MAX, and the node that the second returns cannot
-- be deleted.
empty_adds :
    (s₀ s₁ s₂ : NodeStatistics) × (new_node_statistics 1 uint64_max [] ≡ ok s₀)
    × (add_node s₀ ≡ ok (uint64_max, s₁))
    × (add_node s₁ ≡ ok (0, s₂))
    × (delete_node edges_at_7 s₂ 0 ≡ undefined)
unfolding new_node_statistics load_all_deleted add_node delete_node is_deleted find empty_table
empty_adds = (
  empty_table 1,
  record (empty_table 1) { num_tuples = 0 },
  record (empty_table 1) { num_tuples = 1 },
  refl,
  refl,
  refl,
  refl,
)

abbrev no_selection : Selection
no_selection = record { selected_positions = []; selected_size = 0 }

selects_live_example :
    set_deleted_node_offsets_for_morsel holes 0 2048 no_selection
    ≡ ok (record {
      selected_positions = live_positions holes holes-IsValid 0 2048 no_selection;
      selected_size = length (live_positions holes holes-IsValid 0 2048 no_selection);
    })
selects_live_example =
    selects_live holes holes-IsValid 0 2048 no_selection (omega arith) (inl refl)
      (unfold holes in refl)

new_node_statistics-get_deleted_node_offsets_example :
    (s' : NodeStatistics) × (new_node_statistics holes.table_id
        (get_max_node_offset holes)
        (get_deleted_node_offsets holes.deleted_node_offsets_per_morsel)
      ≡ ok s')
    × Reloaded holes s'
new_node_statistics-get_deleted_node_offsets_example =
    new_node_statistics-get_deleted_node_offsets holes holes-IsValid
      (unfold holes full in omega arith)
