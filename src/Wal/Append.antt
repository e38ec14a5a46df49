-- ===== src/Wal/Append.antt =====
-- What the WAL's state says about the records logged so far, and that every log call keeps it.
use mathlib.Core.List.{append_assoc, append-nil}
use graphflowdb.Base.{
  ℕ, ◌+◌, ◌*◌, ◌≤◌, ◌<◌, ◌≡◌, refl, sym, ◌∙◌, ◌⊎◌, inl, inr, Bool, true, false, List, [], ◌∷◌, ◌++◌,
  arith, length, get_or, set, length-append, length-set, get_or-set_self, get_or-set_ne,
  get_or-append_lt, ltb, Bool-cases, ltb→lt,
}
use graphflowdb.Wal.{
  uint32_max, wal_header_page_size, wal_header_page_prefix_field_sizes, HeaderPage, blank_page, Wal,
  add_new_page, next_header_page_if_full, append_record, add_new_wal_record,
  reset_current_header_page_prefix, Log, page_update, page_insert, commit_transaction,
  table_statistics, catalog, node_table, rel_table, copy_node_csv, copy_rel_csv,
  overflow_file_next_byte_pos, drop_table, log,
}
use graphflowdb.Wal.Record.{
  WalRecord, StorageStructureId, is_commit, page_update_or_insert_record, table_statistics_record,
  commit_record, catalog_record, node_table_record, rel_table_record,
  overflow_file_next_byte_pos_record, copy_node_csv_record, copy_rel_csv_record, drop_table_record,
}
use graphflowdb.Wal.Chain.{
  Holds, end_offset, end_offset-append, Holds-store, Links, Sealed, step, Sealed-Agree,
}

abbrev pub ends_in_commit : List WalRecord → Bool
ends_in_commit [] = false
ends_in_commit (r ∷ []) = is_commit r
ends_in_commit (r ∷ x ∷ rs) = ends_in_commit (x ∷ rs)

pub ends_in_commit-append :
    (rs : List WalRecord) (r : WalRecord) → ends_in_commit (rs ++ (r ∷ [])) ≡ is_commit r
ends_in_commit-append [] r = refl
ends_in_commit-append (x ∷ []) r = refl
ends_in_commit-append (x ∷ y ∷ rs) r = ends_in_commit-append (y ∷ rs) r

module _ (s : ℕ) where
  -- The records are those of the full header pages and those in the buffer.
  pub record IsOpen (w : Wal) (recs : List WalRecord) : Type 0 where
    pub done : List WalRecord
    pub tail : List WalRecord
    pub all : recs ≡ done ++ tail
    pub before : Sealed s w.pages w.current_header_page_idx done
    pub in_file : w.current_header_page_idx < length w.pages
    pub counted : w.buffer.num_records ≡ length tail
    pub held : Holds s w.buffer.record_at wal_header_page_prefix_field_sizes tail
    pub at_end : w.offset ≡ end_offset s wal_header_page_prefix_field_sizes tail
    pub unlinked : w.buffer.next_header_page ≡ uint32_max

  -- Between two log calls: only the first header page may be without records, and then its page in
  -- the file has none either.
  pub record IsLog (w : Wal) (recs : List WalRecord) : Type 0 where
    pub opened : IsOpen w recs
    pub nonempty : (w.current_header_page_idx ≡ 0) ⊎ (0 < w.buffer.num_records)
    pub unwritten : w.buffer.num_records ≡ 0 → (get_or w.pages 0 blank_page).num_records ≡ 0
    pub commit_seen : w.is_last_logged_record_commit ≡ ends_in_commit recs

  append_record-IsLog :
      (w : Wal) (recs : List WalRecord) (r : WalRecord)
      → 0 < s
      → IsOpen w recs
      → IsLog (append_record s w r) (recs ++ (r ∷ []))
  unfolding append_record
  append_record-IsLog w recs r hs o = record {
    opened = record {
      done = o.done;
      tail = o.tail ++ (r ∷ []);
      all = rw (o.all) (append_assoc o.done o.tail (r ∷ []));
      before = o.before;
      in_file = o.in_file;
      counted = omega (arith, o.counted, length-append o.tail (r ∷ []));
      held = Holds-store s w.buffer.record_at _ w.offset o.tail r hs o.at_end o.held;
      at_end = rw (end_offset-append s wal_header_page_prefix_field_sizes o.tail r, ← o.at_end);
      unlinked = o.unlinked;
    };
    nonempty = inr (omega arith);
    unwritten = λ h. absurd (omega arith);
    commit_seen = sym (ends_in_commit-append recs r);
  }

  tail_nonempty :
      (o : ℕ) (tail : List WalRecord)
      → wal_header_page_prefix_field_sizes + s ≤ wal_header_page_size
      → o ≡ end_offset s wal_header_page_prefix_field_sizes tail
      → wal_header_page_size < o + s
      → 0 < length tail
  tail_nonempty o [] fits e full = absurd (omega arith)
  tail_nonempty o (x ∷ tail) fits e full = omega arith

  next_header_page_if_full-IsOpen :
      (w : Wal) (recs : List WalRecord)
      → wal_header_page_prefix_field_sizes + s ≤ wal_header_page_size
      → length w.pages < uint32_max
      → IsOpen w recs
      → IsOpen (next_header_page_if_full s w) recs
  unfolding next_header_page_if_full reset_current_header_page_prefix
  next_header_page_if_full-IsOpen w recs fits room o =
      elim (Bool-cases (ltb wal_header_page_size (w.offset + s))) [
        | inr fit ↦ rw fit o
        | inl full ↦ rw full (switched (ltb→lt _ _ full))
      ]
    where
      next : ℕ
      next = length w.pages

      cur : ℕ
      cur = w.current_header_page_idx

      linked : HeaderPage
      linked = record w.buffer { next_header_page = next }

      grown : List HeaderPage
      grown = w.pages ++ (blank_page ∷ [])

      pages' : List HeaderPage
      pages' = set grown cur linked

      w' : Wal
      w' = record w {
        pages = pages';
        buffer = record w.buffer { num_records = 0; next_header_page = uint32_max };
        offset = wal_header_page_prefix_field_sizes;
        current_header_page_idx = next;
      }

      length_grown : length grown ≡ next + 1
      length_grown = length-append w.pages (blank_page ∷ [])

      written : get_or pages' cur blank_page ≡ linked
      written = get_or-set_self grown cur linked blank_page (omega (arith, o.in_file, length_grown))

      kept : (i : ℕ) → i < cur → get_or w.pages i blank_page ≡ get_or pages' i blank_page
      kept i h =
          sym (get_or-append_lt w.pages (blank_page ∷ []) i blank_page (omega (arith, o.in_file)))
          ∙ sym (get_or-set_ne grown cur i linked blank_page (omega arith))

      links : wal_header_page_size < w.offset + s → Links s pages' cur next o.tail
      links full = record {
        nonempty = tail_nonempty w.offset o.tail fits o.at_end full;
        counted = rw written o.counted;
        held = rw written o.held;
        linked = rw written;
        upward = o.in_file;
        in_range = room;
      }

      switched : wal_header_page_size < w.offset + s → IsOpen w' recs
      switched full = record {
        done = o.done ++ o.tail;
        tail = [];
        all = rw append-nil o.all;
        before = step next o.tail (Sealed-Agree s w.pages pages' kept o.before) (links full);
        in_file = omega (arith, length-set grown cur linked, length_grown);
        counted = refl;
        held = tt;
        at_end = refl;
        unlinked = refl;
      }

  -- One more record is logged, whatever page it lands on.
  pub add_new_wal_record-IsLog :
      (w : Wal) (recs : List WalRecord) (r : WalRecord)
      → 0 < s
      → wal_header_page_prefix_field_sizes + s ≤ wal_header_page_size
      → length w.pages < uint32_max
      → IsLog w recs
      → IsLog (add_new_wal_record s w r) (recs ++ (r ∷ []))
  unfolding add_new_wal_record
  add_new_wal_record-IsLog w recs r hs fits room l =
      append_record-IsLog (next_header_page_if_full s w) recs r hs
        (next_header_page_if_full-IsOpen w recs fits room l.opened)

  add_new_page-IsLog :
      (w : Wal) (recs : List WalRecord) → IsLog w recs → IsLog (add_new_page w).1 recs
  add_new_page-IsLog w recs l = record {
    opened = record {
      done = o.done;
      tail = o.tail;
      all = o.all;
      before =
          Sealed-Agree s w.pages _
            (λ i h. sym (get_or-append_lt w.pages _ i blank_page (omega (arith, o.in_file))))
            o.before;
      in_file = omega (arith, o.in_file, length-append w.pages (blank_page ∷ []));
      counted = o.counted;
      held = o.held;
      at_end = o.at_end;
      unlinked = o.unlinked;
    };
    nonempty = l.nonempty;
    unwritten = λ h.
        rw (get_or-append_lt w.pages (blank_page ∷ []) 0 blank_page (omega (arith, o.in_file)))
          (l.unwritten h);
    commit_seen = l.commit_seen;
  }
    where
      o : IsOpen w recs
      o = l.opened

  abbrev record_page : Wal → StorageStructureId → ℕ → Bool → WalRecord
  record_page w id original is_insert = page_update_or_insert_record (record {
    storage_structure_id = id;
    page_idx_in_original_file = original;
    page_idx_in_wal = length w.pages;
    is_insert = is_insert;
  })

  -- The record that an operation logs: for a page record the WAL page is the one added for it.
  abbrev pub record_of : Wal → Log → WalRecord
  record_of w (page_update id original) = record_page w id original false
  record_of w (page_insert id original) = record_page w id original true
  record_of w (commit_transaction t) = commit_record t
  record_of w (table_statistics b) = table_statistics_record b
  record_of w catalog = catalog_record
  record_of w (node_table t) = node_table_record t
  record_of w (rel_table t) = rel_table_record t
  record_of w (overflow_file_next_byte_pos id n) = overflow_file_next_byte_pos_record id n
  record_of w (copy_node_csv t) = copy_node_csv_record t
  record_of w (copy_rel_csv t) = copy_rel_csv_record t
  record_of w (drop_table b t) = drop_table_record b t

  -- Every log call adds its record behind those logged before. The bounds are that a record fits a
  -- header page and that the file stays below the page index that stands for "none".
  pub log-IsLog :
      (w : Wal) (recs : List WalRecord) (op : Log)
      → 0 < s
      → wal_header_page_prefix_field_sizes + s ≤ wal_header_page_size
      → length w.pages + 1 < uint32_max
      → IsLog w recs
      → IsLog (log s w op) (recs ++ (record_of w op ∷ []))
  unfolding log
  log-IsLog w recs (page_update id original) hs fits room l =
      add_new_wal_record-IsLog _ recs _ hs fits
        (omega (arith, length-append w.pages (blank_page ∷ []))) (add_new_page-IsLog w recs l)
  log-IsLog w recs (page_insert id original) hs fits room l =
      add_new_wal_record-IsLog _ recs _ hs fits
        (omega (arith, length-append w.pages (blank_page ∷ []))) (add_new_page-IsLog w recs l)
  log-IsLog w recs op hs fits room l =
      add_new_wal_record-IsLog w recs (record_of w op) hs fits (omega arith) l

  length-pages-add :
      (w : Wal) (r : WalRecord)
      → (length w.pages ≤ length (add_new_wal_record s w r).pages)
        × (length (add_new_wal_record s w r).pages ≤ length w.pages + 1)
  unfolding add_new_wal_record append_record next_header_page_if_full
      reset_current_header_page_prefix
  length-pages-add w r = ground (
    arith,
    length-append w.pages (blank_page ∷ []),
    length-set (w.pages ++ (blank_page ∷ [])) w.current_header_page_idx
        (record w.buffer { next_header_page = length w.pages }),
  )

  -- A call adds two pages at most, and never drops one.
  pub length-pages-log :
      (w : Wal) (op : Log)
      → (length w.pages ≤ length (log s w op).pages)
        × (length (log s w op).pages ≤ length w.pages + 2)
  unfolding log
  length-pages-log w (page_update id original) = omega (
    arith,
    length-pages-add (add_new_page w).1 (record_of w (page_update id original)),
    length-append w.pages (blank_page ∷ []),
  )
  length-pages-log w (page_insert id original) = omega (
    arith,
    length-pages-add (add_new_page w).1 (record_of w (page_insert id original)),
    length-append w.pages (blank_page ∷ []),
  )
  length-pages-log w op = omega (arith, length-pages-add w (record_of w op))

  abbrev pub log_all : Wal → List Log → Wal
  log_all w [] = w
  log_all w (op ∷ ops) = log_all (log s w op) ops

  abbrev pub records_of : Wal → List Log → List WalRecord
  records_of w [] = []
  records_of w (op ∷ ops) = record_of w op ∷ records_of (log s w op) ops

  pub log_all-IsLog :
      (w : Wal) (recs : List WalRecord) (ops : List Log)
      → 0 < s
      → wal_header_page_prefix_field_sizes + s ≤ wal_header_page_size
      → length w.pages + 2 * length ops < uint32_max
      → IsLog w recs
      → IsLog (log_all w ops) (recs ++ records_of w ops)
  log_all-IsLog w recs [] hs fits room l = rw append-nil l
  log_all-IsLog w recs (op ∷ ops) hs fits room l =
      rw (append_assoc recs (record_of w op ∷ []) (records_of (log s w op) ops)) at (
        log_all-IsLog (log s w op) (recs ++ (record_of w op ∷ [])) ops hs fits
          (omega (arith, length-pages-log w op)) (log-IsLog w recs op hs fits (omega arith) l))
