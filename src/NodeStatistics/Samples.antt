-- ===== src/NodeStatistics/Samples.antt =====
-- Sample statistics for runs and uses of the theorems.
use graphflowdb.Base.{◌+◌, ◌<◌, ◌≡◌, refl, true, false, [], ◌∷◌, arith}
use graphflowdb.NodeStatistics.{
  NodeStatistics, ok, uint64_max, delete_node, is_deleted, find, mark_deleted, get_max_node_offset,
  map_insert, map_set, set_insert,
}
use graphflowdb.NodeStatistics.Validity.{IsValid}

-- Ten nodes, none deleted.
pub ten : NodeStatistics
ten = record {
  table_id = 4;
  num_tuples = 10;
  has_deleted_nodes_per_morsel = false ∷ [];
  deleted_node_offsets_per_morsel = [];
}

pub ten-IsValid : IsValid ten
unfolding ten is_deleted find
ten-IsValid = record {
  in_range = omega arith;
  sorted = tt;
  flags = λ k. ground arith;
  exist = λ x h. ground arith;
}

pub ten_room : ten.num_tuples + 1 < uint64_max
unfolding ten
ten_room = omega arith

-- The node 3 of the ten deleted.
pub nine : NodeStatistics
unfolding ten
nine = record ten {
  has_deleted_nodes_per_morsel = true ∷ [];
  deleted_node_offsets_per_morsel = (0, 3 ∷ []) ∷ [];
}

pub deleted_three : delete_node (λ x. false) ten 3 ≡ ok nine
unfolding delete_node nine ten is_deleted find mark_deleted get_max_node_offset map_insert map_set
    set_insert
deleted_three = refl
