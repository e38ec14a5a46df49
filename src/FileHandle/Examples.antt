-- ===== src/FileHandle/Examples.antt =====
-- The theorem on src/storage/buffer_manager/file_handle.cpp at a handle that grows and is
-- truncated.
use graphflowdb.Base.{ℕ, ◌≡◌, refl, false, arith}
use graphflowdb.FileHandle.{
  FileHandle, construct_existing_file_handle, add_page_locks_and_frame_ptrs,
  add_new_page_without_lock, remove_page_idx_and_truncate_if_necessary_without_lock, swizzle,
  init_page_idx_to_frame_map_and_locks,
}
use graphflowdb.FileHandle.Sizes.{IsSized, existing, add, remove, enter, reach-IsSized}

-- Three pages of a file of 10000 bytes, and a fourth that is added.
abbrev grown : FileHandle ℕ
grown = (add_new_page_without_lock (construct_existing_file_handle false (λ i. i) 10000)).1

abbrev truncated : FileHandle ℕ
truncated = remove_page_idx_and_truncate_if_necessary_without_lock (swizzle grown 3 7) 2

grown_pages : grown.num_pages ≡ 4
unfolding add_new_page_without_lock construct_existing_file_handle
    init_page_idx_to_frame_map_and_locks add_page_locks_and_frame_ptrs
grown_pages = refl

reach-IsSized_example : IsSized truncated
unfolding add_new_page_without_lock construct_existing_file_handle
    init_page_idx_to_frame_map_and_locks add_page_locks_and_frame_ptrs
reach-IsSized_example =
    reach-IsSized
      (remove 2 (enter 3 7 (omega arith) (add (omega arith) (existing false (λ i. i) 10000))))
