-- ===== src/HashIndex/Examples.antt =====
-- Tests of the addresses of src/storage/index/in_mem_hash_index.cpp.
use graphflowdb.Base.{◌≡◌, refl, arith}
use graphflowdb.HashIndex.{
  one_shifted, increment_level, increment_next_split_slot_id, get_primary_slot_id_for_key,
  split_slot_without_lock,
}
use graphflowdb.HashIndex.Addresses.{IsAddressed, split_times, split_times-IsAddressed}

-- Five slots: level 2, of which slot 0 is split.
split_times-IsAddressed_example : IsAddressed (split_times 3) 13
split_times-IsAddressed_example = split_times-IsAddressed 3 (omega arith) 13

five_slots : get_primary_slot_id_for_key ((split_times 3).index_header) 13 ≡ 1
unfolding split_times split_slot_without_lock increment_next_split_slot_id increment_level
    one_shifted get_primary_slot_id_for_key
five_slots = refl

-- The split of slot 1 moves the hash to the new slot.
six_slots : get_primary_slot_id_for_key ((split_times 4).index_header) 13 ≡ 5
unfolding split_times split_slot_without_lock increment_next_split_slot_id increment_level
    one_shifted get_primary_slot_id_for_key
six_slots = refl
