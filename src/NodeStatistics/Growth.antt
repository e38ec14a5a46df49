-- ===== src/NodeStatistics/Growth.antt =====
-- addNode past the morsels that have a flag, and the statistics of a new table.
use graphflowdb.Base.{ℕ, ◌+◌, ◌*◌, ◌<◌, ◌≡◌, Bool, false, [], arith, length}
use graphflowdb.NodeStatistics.{
  uint64_max, default_vector_capacity, NodeStatistics, ok, undefined, find, is_deleted, add_node,
  delete_node,
}
use graphflowdb.NodeStatistics.Validity.{IsValid}
use graphflowdb.NodeStatistics.AddNode.{add_node_grows, grown-IsValid}
use graphflowdb.NodeStatistics.DeleteNode.{delete_node_uncovered}

-- On valid statistics, when every flag stands for a full morsel of existing offsets and none is
-- deleted, the offset that addNode returns cannot be deleted afterwards: deleteNode reads behind
-- the end of the vector of flags, which addNode does not grow.
pub delete_node-add_node_undefined :
    (has_edges : ℕ → Bool) (s : NodeStatistics)
    → IsValid s
    → s.num_tuples + 1 < uint64_max
    → s.deleted_node_offsets_per_morsel ≡ []
    → s.num_tuples ≡ default_vector_capacity * length s.has_deleted_nodes_per_morsel
    → has_edges s.num_tuples ≡ false
    → (s' : NodeStatistics) × (add_node s ≡ ok (s.num_tuples, s'))
      × (delete_node has_edges s' s.num_tuples ≡ undefined)
unfolding is_deleted find
delete_node-add_node_undefined has_edges s v room none_deleted full free =
    let s' : NodeStatistics = record s { num_tuples = s.num_tuples + 1 } in
    (
      s',
      add_node_grows s room none_deleted,
      delete_node_uncovered has_edges s' s.num_tuples (grown-IsValid s room v) (omega arith)
          (ground arith) free (omega arith),
    )

-- What constructTableStatistic gives a new node table: no node yet.
unfoldable pub empty_table : ℕ → NodeStatistics
empty_table table_id = record {
  table_id = table_id;
  num_tuples = uint64_max;
  has_deleted_nodes_per_morsel = [];
  deleted_node_offsets_per_morsel = [];
}
