-- ===== src/VersionedFileHandle/History.antt =====
-- Any calls of src/storage/buffer_manager/versioned_file_handle.cpp against a map from pages to
-- their versions.
use graphflowdb.Base.{
  ℕ, ◌+◌, ◌^◌, ◌<◌, ◌≤◌, ◌≡◌, refl, sym, ap, ◌∙◌, inl, inr, false, List, [], ◌∷◌, Option, none,
  arith, ◌==◌, ltb, leb, if◌then◌else◌, Bool-cases, update, length,
}
use graphflowdb.FileHandle.{
  uint32_max, FileHandle, ceil_div, add_new_page_without_lock,
  remove_page_idx_and_truncate_if_necessary_without_lock,
}
use graphflowdb.VersionedFileHandle.{
  VersionedFileHandle, get_num_page_groups, group_of, pos_in_group,
  has_wal_page_version_no_page_lock, get_wal_page_version_no_page_lock,
  create_page_version_group_if_necessary, set_wal_page_version, clear_wal_page_version_if_necessary,
  add_new_page, remove_page_idx_and_truncate_if_necessary,
}
use graphflowdb.VersionedFileHandle.Pages.{
  IsGrouped, logged_version, tag, store, store-logged_version, store-IsGrouped, store-file_handle,
  resized, resized-file_handle, resized-IsGrouped, resized-logged_version, logged_version-look,
  look,
}

pub data Call : Type 0 where
  set_version : ℕ → ℕ → Call
  clear_version remove_from : ℕ → Call
  add_page : Call

module _ {Page : Type 0} where
  -- A version is set, after its group has been created, only for a page of the file.
  abbrev pub run : VersionedFileHandle Page → Call → VersionedFileHandle Page
  run h (set_version p v) =
      if ltb p (h.file_handle).num_pages
      then set_wal_page_version (create_page_version_group_if_necessary h p) p v
      else h
  run h (clear_version p) = clear_wal_page_version_if_necessary h p
  run h (remove_from p) = remove_page_idx_and_truncate_if_necessary h p
  run h add_page = (add_new_page h).1

  abbrev pub run_all : VersionedFileHandle Page → List Call → VersionedFileHandle Page
  run_all h [] = h
  run_all h (call ∷ calls) = run_all (run h call) calls

-- The same on a count of pages and a map. A truncation forgets the versions of whole groups only.
abbrev pub Versions : Type 0
Versions = ℕ × (ℕ → Option ℕ)

abbrev pub apply : Versions → Call → Versions
apply (n, m) (set_version p v) = if ltb p n then (n, update m p (tag v)) else (n, m)
apply (n, m) (clear_version p) = if leb n p then (n, m) else (n, update m p none)
apply (n, m) (remove_from p) =
    if leb n p then (n, m) else (p, λ q. if ltb (group_of q) (ceil_div p 64) then m q else none)
apply (n, m) add_page = (n + 1, m)

abbrev pub apply_all : Versions → List Call → Versions
apply_all s [] = s
apply_all s (call ∷ calls) = apply_all (apply s call) calls

apply_count : (s : Versions) (call : Call) → (apply s call).0 ≤ s.0 + 1
apply_count (n, m) (set_version p v) = ground arith
apply_count (n, m) (clear_version p) = ground arith
apply_count (n, m) (remove_from p) = ground arith
apply_count (n, m) add_page = omega arith

-- The handle says of every page what the map says.
pub record Shows {Page : Type 0} (h : VersionedFileHandle Page) (s : Versions) : Type 0 where
  pub grouped : IsGrouped h
  pub counts : (h.file_handle).num_pages ≡ s.0
  pub shows : (q : ℕ) → logged_version h q ≡ s.1 q

module _ {Page : Type 0} where
  store-Shows :
      (h : VersionedFileHandle Page) (n : ℕ) (m : ℕ → Option ℕ) (p v : ℕ)
      → Shows h (n, m)
      → p < n
      → Shows (store h p v) (n, update m p (tag v))
  store-Shows h n m p v w lt = record {
    grouped = store-IsGrouped h p v (omega (arith, w.counts, lt)) w.grouped;
    counts = ap (λ x. x.num_pages) (store-file_handle h p v) ∙ w.counts;
    shows = λ q.
        store-logged_version h p v q w.grouped ∙ ap (λ x. if p == q then tag v else x) (w.shows q);
  }

  resized-Shows :
      (h : VersionedFileHandle Page) (f : FileHandle Page) (n n' : ℕ) (m : ℕ → Option ℕ)
      → Shows h (n, m)
      → f.num_pages ≡ n'
      → Shows
          (resized (record h { file_handle = f }))
          (n', λ q. if ltb (group_of q) (ceil_div n' 64) then m q else none)
  unfolding has_wal_page_version_no_page_lock get_wal_page_version_no_page_lock
  resized-Shows h f n n' m w e =
      let beyond : (g : ℕ) → h.num_page_group_locks ≤ g → h.page_versions g ≡ [] =
        λ g le. w.grouped.beyond g (omega (arith, le, w.grouped.locks)) in
      let r = record h { file_handle = f } in
      record {
        grouped = resized-IsGrouped r w.grouped.full beyond;
        counts = ap (λ x. x.num_pages) (resized-file_handle r) ∙ e;
        shows = λ q.
            resized-logged_version r q beyond
            ∙ ap (λ x. if ltb (group_of q) (ceil_div x 64) then logged_version h q else none) e
            ∙ ap (λ x. if ltb (group_of q) (ceil_div n' 64) then x else none) (w.shows q);
      }

  Shows-same :
      {h : VersionedFileHandle Page} {n : ℕ} {m m' : ℕ → Option ℕ}
      → Shows h (n, m)
      → ((q : ℕ) → m q ≡ m' q)
      → Shows h (n, m')
  Shows-same w e = record { grouped = w.grouped; counts = w.counts; shows = λ q. w.shows q ∙ e q }

  relocked-Shows :
      (h : VersionedFileHandle Page) (f : FileHandle Page) (s : Versions)
      → Shows h s
      → f.num_pages ≡ (h.file_handle).num_pages
      → Shows (record h { file_handle = f }) s
  unfolding has_wal_page_version_no_page_lock get_wal_page_version_no_page_lock
  relocked-Shows h f s w e = record {
    grouped = record {
      locks = w.grouped.locks ∙ ap (λ x. ceil_div x 64) (sym e);
      full = w.grouped.full;
      beyond = λ g le. w.grouped.beyond g (omega (arith, le, ap (λ x. ceil_div x 64) e));
    };
    counts = e ∙ w.counts;
    shows = w.shows;
  }

  -- A page behind the last group has no version.
  beyond-logged_version :
      (h : VersionedFileHandle Page) (q : ℕ)
      → IsGrouped h
      → get_num_page_groups h ≤ group_of q
      → logged_version h q ≡ none
  beyond-logged_version h q w le =
      logged_version-look h q ∙ ap (λ l. look l (pos_in_group q)) (w.beyond (group_of q) le)

  kept-versions :
      (h : VersionedFileHandle Page) (n n' : ℕ) (m : ℕ → Option ℕ)
      → Shows h (n, m)
      → n ≤ n'
      → (q : ℕ) → (if ltb (group_of q) (ceil_div n' 64) then m q else none) ≡ m q
  kept-versions h n n' m w le q = elim (Bool-cases (ltb (group_of q) (ceil_div n' 64))) [
    | inl e ↦ ap (λ b. if b then m q else none) e
    | inr e ↦
        ap (λ b. if b then m q else none) e
        ∙ sym (sym (w.shows q) ∙ beyond-logged_version h q w.grouped (not_ltb e))
  ]
    where
      not_ltb : ltb (group_of q) (ceil_div n' 64) ≡ false → get_num_page_groups h ≤ group_of q
      not_ltb e = ground (arith, w.counts)

  add-num_pages :
      (f : FileHandle Page)
      → f.num_pages + 1 < 2 ^ 32
      → (add_new_page_without_lock f).1.num_pages ≡ f.num_pages + 1
  unfolding add_new_page_without_lock
  add-num_pages f lt = omega (arith, lt)

  remove-num_pages :
      (f : FileHandle Page) (p : ℕ)
      → (remove_page_idx_and_truncate_if_necessary_without_lock f p).num_pages
        ≡ (if leb f.num_pages p then f.num_pages else p)
  unfolding remove_page_idx_and_truncate_if_necessary_without_lock
  remove-num_pages f p = ground arith

  add-Shows :
      (h : VersionedFileHandle Page) (n : ℕ) (m : ℕ → Option ℕ)
      → Shows h (n, m)
      → n + 1 < 2 ^ 32
      → Shows (add_new_page h).1 (n + 1, m)
  unfolding add_new_page
  add-Shows h n m w lt =
      Shows-same
        (resized-Shows h (add_new_page_without_lock h.file_handle).1 n (n + 1) m w
          (add-num_pages h.file_handle (omega (arith, w.counts, lt)) ∙ ap (λ x. x + 1) w.counts))
        (kept-versions h n (n + 1) m w (omega arith))

  remove-Shows :
      (h : VersionedFileHandle Page) (n : ℕ) (m : ℕ → Option ℕ) (p : ℕ)
      → Shows h (n, m)
      → Shows (remove_page_idx_and_truncate_if_necessary h p) (apply (n, m) (remove_from p))
  unfolding remove_page_idx_and_truncate_if_necessary
  remove-Shows h n m p w =
      let f = remove_page_idx_and_truncate_if_necessary_without_lock h.file_handle p in
      let count = remove-num_pages h.file_handle p ∙ ap (λ x. if leb x p then x else p) w.counts in
      elim (Bool-cases (leb n p)) [
        | inl e ↦
            rw (e, if◌then◌else◌)
              (Shows-same (resized-Shows h f n n m w (count ∙ ap (λ b. if b then n else p) e))
                (kept-versions h n n m w (omega arith)))
        | inr e ↦
            rw (e, if◌then◌else◌)
              (resized-Shows h f n p m w (count ∙ ap (λ b. if b then n else p) e))
      ]

  clear-Shows :
      (h : VersionedFileHandle Page) (n : ℕ) (m : ℕ → Option ℕ) (p : ℕ)
      → Shows h (n, m)
      → Shows (clear_wal_page_version_if_necessary h p) (apply (n, m) (clear_version p))
  unfolding clear_wal_page_version_if_necessary
  clear-Shows h n m p w = elim (Bool-cases (leb n p)) [
    | inl e ↦ rw (e, ap (λ x. leb x p) w.counts ∙ e, if◌then◌else◌) w
    | inr e ↦
        rw (e, ap (λ x. leb x p) w.counts ∙ e, if◌then◌else◌)
          (relocked-Shows (store h p uint32_max) _ (n, update m p none)
            (store-Shows h n m p uint32_max w (ground arith)) refl)
  ]

  set-Shows :
      (h : VersionedFileHandle Page) (n : ℕ) (m : ℕ → Option ℕ) (p v : ℕ)
      → Shows h (n, m)
      → Shows (run h (set_version p v)) (apply (n, m) (set_version p v))
  set-Shows h n m p v w = elim (Bool-cases (ltb p n)) [
    | inl e ↦
        rw (e, ap (ltb p) w.counts ∙ e, if◌then◌else◌) (store-Shows h n m p v w (ground arith))
    | inr e ↦ rw (e, ap (ltb p) w.counts ∙ e, if◌then◌else◌) w
  ]

  run-Shows :
      (call : Call) (h : VersionedFileHandle Page) (s : Versions)
      → Shows h s
      → s.0 + 1 < 2 ^ 32
      → Shows (run h call) (apply s call)
  run-Shows (set_version p v) h (n, m) w lt = set-Shows h n m p v w
  run-Shows (clear_version p) h (n, m) w lt = clear-Shows h n m p w
  run-Shows (remove_from p) h (n, m) w lt = remove-Shows h n m p w
  run-Shows add_page h (n, m) w lt = add-Shows h n m w lt

  -- Whatever versions are set and cleared and whatever pages are added and removed, as long as the
  -- count of pages stays a 32-bit number, the handle says of every page what the same calls leave
  -- in a map, where a truncation forgets the versions of the groups that have no page left; and its
  -- vectors fit its pages.
  pub run_all-Shows :
      (calls : List Call) (h : VersionedFileHandle Page) (s : Versions)
      → Shows h s
      → s.0 + length calls < 2 ^ 32
      → Shows (run_all h calls) (apply_all s calls)
  run_all-Shows [] h s w lt = w
  run_all-Shows (call ∷ calls) h s w lt =
      run_all-Shows calls (run h call) (apply s call) (run-Shows call h s w (omega (arith, lt)))
        (omega (arith, lt, apply_count s call))
