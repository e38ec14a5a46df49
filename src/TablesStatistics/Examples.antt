-- ===== src/TablesStatistics/Examples.antt =====
-- Uses of the theorems on the two versions of the statistics.
use graphflowdb.Base.{◌≡◌, ◌⊎◌, refl, true, false, [], ◌∷◌, none, some}
use graphflowdb.Transaction.{read_only, write}
use graphflowdb.NodeStatistics.{undefined}
use graphflowdb.NodeStatistics.AddNode.{first_has_one}
use graphflowdb.NodeStatistics.Selector.{Selection}
use graphflowdb.NodeStatistics.Samples.{ten, ten-IsValid, ten_room, nine}
use graphflowdb.TablesStatistics.{
  TablesStatistics, has_updates, lookup, version, table_of, checkpoint_in_memory_if_necessary,
  rollback_in_memory_if_necessary, get_max_node_offset_for, select_for, add_node_to, delete_node_of,
}
use graphflowdb.TablesStatistics.Versions.{
  Writes, starts, adds, deletes, readers_unaffected, rollback-Writes, checkpoint_shows_updates,
}
use graphflowdb.TablesStatistics.Calls.{AddsTo, add_node_to_lem}

one_table : TablesStatistics
one_table = record { for_read_only_trx = some ((4, ten) ∷ []); for_write_trx = none }

-- A write transaction adds a node and deletes the node 3.
changed : TablesStatistics
changed = (delete_node_of (λ x. false) (add_node_to one_table 4).1 4 3).1

Writes-changed : Writes one_table changed
unfolding changed
Writes-changed = deletes (λ x. false) 4 3 (adds 4 starts)

abbrev none_selected : Selection
none_selected = record { selected_positions = []; selected_size = 0 }

readers_unaffected_example :
    (get_max_node_offset_for changed read_only 4 ≡ get_max_node_offset_for one_table read_only 4)
    × (select_for changed read_only 4 0 10 none_selected
        ≡ select_for one_table read_only 4 0 10 none_selected)
readers_unaffected_example = readers_unaffected 4 0 10 none_selected Writes-changed

nothing_written : has_updates one_table ≡ false
unfolding has_updates one_table
nothing_written = refl

rollback-Writes_example : rollback_in_memory_if_necessary changed ≡ one_table
rollback-Writes_example = rollback-Writes nothing_written Writes-changed

-- The write version stands beside the read-only one.
both : TablesStatistics
unfolding one_table
both = record one_table { for_write_trx = some ((4, nine) ∷ []) }

something_written : has_updates both ≡ true
unfolding has_updates both
something_written = refl

checkpoint_shows_updates_example :
    (get_max_node_offset_for (checkpoint_in_memory_if_necessary both) read_only 4
      ≡ get_max_node_offset_for both write 4)
    × (select_for (checkpoint_in_memory_if_necessary both) read_only 4 0 10 none_selected
        ≡ select_for both write 4 0 10 none_selected)
checkpoint_shows_updates_example =
    checkpoint_shows_updates both read_only 4 0 10 none_selected something_written

sees_ten : table_of (version one_table write) 4 ≡ some ten
unfolding one_table table_of version lookup
sees_ten = refl

add_node_to_lem_example :
    ((first_has_one ten.deleted_node_offsets_per_morsel ≡ true)
      × ((add_node_to one_table 4).0 ≡ undefined))
    ⊎ ((first_has_one ten.deleted_node_offsets_per_morsel ≡ false) × AddsTo one_table 4 ten)
add_node_to_lem_example = add_node_to_lem one_table 4 ten sees_ten ten-IsValid ten_room
