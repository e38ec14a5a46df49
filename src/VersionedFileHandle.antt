-- ===== src/VersionedFileHandle.antt =====
-- The handle of a file whose pages can have a version in the log: src/storage/buffer_manager/
-- include/versioned_file_handle.h and src/storage/buffer_manager/versioned_file_handle.cpp.
--
-- Pages fall into groups of 64, and a group's vector of versions is empty until one of its pages
-- gets a version. A group behind the end of the vector of groups reads as an empty one. The calls
-- run one at a time, so the spin locks of the groups are free when a call takes them; of the vector
-- of locks only its size is kept.
pub mod Pages
pub mod History
mod Examples
use graphflowdb.Base.{
  ℕ, zero, suc, ◌+◌, ◌/◌, ◌%◌, Bool, true, false, not, ◌&&◌, List, [], ◌∷◌, ◌==◌, ltb, leb,
  if◌then◌else◌, get_or, set, replicate, update,
}
use graphflowdb.FileHandle.{
  uint32_max, FileHandle, ceil_div, release_page_lock, add_new_page_without_lock,
  remove_page_idx_and_truncate_if_necessary_without_lock,
}

abbrev pub multi_version_file_page_group_size : ℕ
multi_version_file_page_group_size = 64

pub record VersionedFileHandle (Page : Type 0) : Type 0 where
  pub file_handle : FileHandle Page
  pub page_versions : ℕ → List ℕ
  pub num_page_group_locks : ℕ

abbrev pub is_empty : List ℕ → Bool
is_empty [] = true
is_empty (x ∷ xs) = false

-- The versions of the page's group and the page's place in them.
abbrev pub group_of : ℕ → ℕ
group_of page_idx = page_idx / multi_version_file_page_group_size

abbrev pub pos_in_group : ℕ → ℕ
pos_in_group page_idx = page_idx % multi_version_file_page_group_size

module _ {Page : Type 0} where
  abbrev pub get_num_page_groups : VersionedFileHandle Page → ℕ
  get_num_page_groups h = ceil_div (h.file_handle).num_pages multi_version_file_page_group_size

  -- Nothing is done when there are as many locks as groups.
  pub resize_page_group_locks_and_page_versions_to_num_page_groups_without_lock :
      VersionedFileHandle Page → VersionedFileHandle Page
  resize_page_group_locks_and_page_versions_to_num_page_groups_without_lock h =
      let groups = get_num_page_groups h in
      if h.num_page_group_locks == groups then h else record h {
        num_page_group_locks = groups;
        page_versions = λ group. if ltb group groups then h.page_versions group else [];
      }

  pub new_versioned_file_handle : FileHandle Page → VersionedFileHandle Page
  unfolding resize_page_group_locks_and_page_versions_to_num_page_groups_without_lock
  new_versioned_file_handle file_handle =
      resize_page_group_locks_and_page_versions_to_num_page_groups_without_lock (record {
        file_handle = file_handle;
        page_versions = λ group. [];
        num_page_group_locks = 0;
      })

  pub has_wal_page_version_no_page_lock : VersionedFileHandle Page → ℕ → Bool
  has_wal_page_version_no_page_lock h page_idx =
      let versions = h.page_versions (group_of page_idx) in
      not (is_empty versions) && not (get_or versions (pos_in_group page_idx) 0 == uint32_max)

  pub get_wal_page_version_no_page_lock : VersionedFileHandle Page → ℕ → ℕ
  get_wal_page_version_no_page_lock h page_idx =
      get_or (h.page_versions (group_of page_idx)) (pos_in_group page_idx) 0

  pub create_page_version_group_if_necessary :
      VersionedFileHandle Page → ℕ → VersionedFileHandle Page
  create_page_version_group_if_necessary h page_idx =
      let group = group_of page_idx in
      if is_empty (h.page_versions group)
      then record h {
        page_versions =
            update h.page_versions group (replicate multi_version_file_page_group_size uint32_max);
      }
      else h

  pub set_wal_page_version : VersionedFileHandle Page → ℕ → ℕ → VersionedFileHandle Page
  set_wal_page_version h page_idx page_idx_in_wal =
      let group = group_of page_idx in
      record h {
        page_versions =
            update h.page_versions group
              (set (h.page_versions group) (pos_in_group page_idx) page_idx_in_wal);
      }

  pub clear_wal_page_version_if_necessary : VersionedFileHandle Page → ℕ → VersionedFileHandle Page
  unfolding create_page_version_group_if_necessary set_wal_page_version
  clear_wal_page_version_if_necessary h page_idx =
      let h' : VersionedFileHandle Page =
        set_wal_page_version (create_page_version_group_if_necessary h page_idx) page_idx
          uint32_max in
      if leb (h.file_handle).num_pages page_idx
      then h
      else record h' { file_handle = release_page_lock h'.file_handle page_idx }

  pub add_new_page : VersionedFileHandle Page → ℕ × VersionedFileHandle Page
  unfolding resize_page_group_locks_and_page_versions_to_num_page_groups_without_lock
  add_new_page h =
      let r = add_new_page_without_lock h.file_handle in
      (
        r.0,
        resize_page_group_locks_and_page_versions_to_num_page_groups_without_lock
            (record h { file_handle = r.1 }),
      )

  pub remove_page_idx_and_truncate_if_necessary :
      VersionedFileHandle Page → ℕ → VersionedFileHandle Page
  unfolding resize_page_group_locks_and_page_versions_to_num_page_groups_without_lock
  remove_page_idx_and_truncate_if_necessary h page_idx =
      resize_page_group_locks_and_page_versions_to_num_page_groups_without_lock (record h {
        file_handle = remove_page_idx_and_truncate_if_necessary_without_lock h.file_handle page_idx;
      })
