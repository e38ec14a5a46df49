-- ===== src/VersionedFileHandle/Examples.antt =====
-- Runs of a versioned file handle on small inputs: src/storage/buffer_manager/
-- versioned_file_handle.cpp.
use graphflowdb.Base.{ℕ, ◌≡◌, refl, inl, false, List, [], ◌∷◌, none, some, arith}
use graphflowdb.VersionedFileHandle.{
  VersionedFileHandle, has_wal_page_version_no_page_lock, new_versioned_file_handle,
  resize_page_group_locks_and_page_versions_to_num_page_groups_without_lock,
}
use graphflowdb.VersionedFileHandle.History.{
  Call, set_version, clear_version, remove_from, add_page, run_all, apply_all, Shows, run_all-Shows,
}

abbrev six_pages : VersionedFileHandle ℕ
six_pages = new_versioned_file_handle (record {
  is_large_paged = false;
  pages = λ i. i;
  page_locks = λ i. some false;
  page_idx_to_frame_map = λ i. some 4294967295;
  num_pages = 6;
  page_capacity = 6;
})

six_pages-Shows : Shows six_pages (6, λ q. none)
unfolding new_versioned_file_handle has_wal_page_version_no_page_lock
    resize_page_group_locks_and_page_versions_to_num_page_groups_without_lock
six_pages-Shows = record {
  grouped = record { locks = refl; full = λ g. inl (ground arith); beyond = λ g le. ground arith };
  counts = refl;
  shows = λ q. ground arith;
}

-- A transaction adds page 6 and then page 7 and is rolled back.
abbrev calls : List Call
calls =
    add_page
    ∷ set_version 6 20
    ∷ add_page
    ∷ set_version 7 21
    ∷ clear_version 6
    ∷ remove_from 6
    ∷ clear_version 7
    ∷ remove_from 7
    ∷ add_page
    ∷ add_page
    ∷ []

run_all-Shows_example : Shows (run_all six_pages calls) (apply_all (6, λ q. none) calls)
run_all-Shows_example = run_all-Shows calls six_pages (6, λ q. none) six_pages-Shows (omega arith)

-- Page 7, added again, has the version of the transaction that was rolled back.
old_version : (apply_all (6, λ q. none) calls).1 7 ≡ some 21
old_version = refl
