-- ===== src/HashIndex.antt =====
-- The addresses of the in-memory hash index: src/storage/index/include/in_mem_hash_index.h and
-- src/storage/index/in_mem_hash_index.cpp.
--
-- The index hashes linearly: its primary slots are split one after the other, in the order of their
-- ids, and the header says which is next and how many bits of a hash address a slot. The hash
-- function is not under src/, so an address is a function of the hash. Of the array of primary
-- slots the id of the next slot is kept; the entries of the slots are not modelled.
pub mod Masks
pub mod Addresses
mod Examples
use graphflowdb.Base.{ℕ, zero, suc, ◌+◌, ◌-◌, ◌^◌, ltb, if◌then◌else◌}
use Prim.Native.Nat.{bit_and}

pub record HashIndexHeader : Type 0 where
  pub current_level : ℕ
  pub level_hash_mask : ℕ
  pub higher_level_hash_mask : ℕ
  pub next_split_slot_id : ℕ

abbrev pub new_hash_index_header : HashIndexHeader
new_hash_index_header = record {
  current_level = 1;
  level_hash_mask = 1;
  higher_level_hash_mask = 3;
  next_split_slot_id = 0;
}

-- `1 << n` of an `int`. C++ does not define it from 31 bits on, where this is 0.
unfoldable one_shifted : ℕ → ℕ
one_shifted n = if ltb n 31 then 2 ^ n else 0

unfoldable increment_level : HashIndexHeader → HashIndexHeader
increment_level h = record {
  current_level = suc (h.current_level);
  level_hash_mask = one_shifted (suc (h.current_level)) - 1;
  higher_level_hash_mask = one_shifted (suc (suc (h.current_level))) - 1;
  next_split_slot_id = 0;
}

unfoldable increment_next_split_slot_id : HashIndexHeader → HashIndexHeader
increment_next_split_slot_id h =
    if ltb (h.next_split_slot_id) (2 ^ h.current_level - 1)
    then record h { next_split_slot_id = suc (h.next_split_slot_id) }
    else increment_level h

-- Of the key, the hash.
unfoldable get_primary_slot_id_for_key : HashIndexHeader → ℕ → ℕ
get_primary_slot_id_for_key h hash =
    let slot_id = bit_and hash (h.level_hash_mask) in
    if ltb slot_id (h.next_split_slot_id) then bit_and hash (h.higher_level_hash_mask) else slot_id

-- The slot to which the split of a slot copies an entry with this hash.
unfoldable new_slot_id : HashIndexHeader → ℕ → ℕ
new_slot_id h hash = bit_and hash (h.higher_level_hash_mask)

pub record InMemHashIndex : Type 0 where
  pub index_header : HashIndexHeader
  pub next_slot_id_to_allocate : ℕ

abbrev pub new_in_mem_hash_index : InMemHashIndex
new_in_mem_hash_index = record {
  index_header = new_hash_index_header;
  next_slot_id_to_allocate = 2;
}

unfoldable split_slot_without_lock : InMemHashIndex → InMemHashIndex
split_slot_without_lock i = record {
  index_header = increment_next_split_slot_id (i.index_header);
  next_slot_id_to_allocate = suc (i.next_slot_id_to_allocate);
}
