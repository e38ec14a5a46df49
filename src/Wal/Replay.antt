-- ===== src/Wal/Replay.antt =====
-- What is read back from the log: by an iterator, and by a WAL that is opened on the file.
use graphflowdb.Base.{
  ℕ, zero, suc, ◌+◌, ◌-◌, ◌^◌, ◌*◌, ◌≤◌, ◌<◌, ◌≡◌, refl, sym, ap, ◌∙◌, inl, inr, true, false, List,
  [], ◌∷◌, some, arith, length, get_or, set, length-append, length-set, get_or-set_self,
  get_or-set_ne, Bool-cases,
}
use graphflowdb.Wal.{
  uint32_max, wal_header_page_size, wal_header_page_prefix_field_sizes, HeaderPage, blank_page, Wal,
  WalIterator, is_empty_wal, flush_header_pages, has_next_record, new_iterator, read_all, Log,
  last_is_commit, set_is_last_record_commit, open_wal, clear_wal,
}
use graphflowdb.Wal.Record.{WalRecord}
use graphflowdb.Wal.Chain.{Sealed, start, step, Sealed-Agree, read-Sealed, read_last, at_page}
use graphflowdb.Wal.Append.{IsOpen, IsLog, ends_in_commit, log_all, records_of, log_all-IsLog}

module _ (s : ℕ) where
  -- A log that is opened on an empty file, or cleared, holds no record.
  pub clear_wal-IsLog : (w : Wal) → IsLog s (clear_wal s w) []
  unfolding clear_wal
  clear_wal-IsLog w = record {
    opened = record {
      done = [];
      tail = [];
      all = refl;
      before = start;
      in_file = omega arith;
      counted = refl;
      held = tt;
      at_end = refl;
      unlinked = refl;
    };
    nonempty = inl refl;
    unwritten = λ _. refl;
    commit_seen = refl;
  }

  pub open_wal-IsLog : (fuel : ℕ) → IsLog s (open_wal s fuel []) []
  unfolding open_wal
  open_wal-IsLog fuel = record {
    opened = record {
      done = [];
      tail = [];
      all = refl;
      before = start;
      in_file = omega arith;
      counted = refl;
      held = tt;
      at_end = refl;
      unlinked = refl;
    };
    nonempty = inl refl;
    unwritten = λ _. refl;
    commit_seen = refl;
  }

  Sealed-zero :
      (pages : List HeaderPage) {j : ℕ} {done : List WalRecord}
      → j ≡ 0
      → Sealed s pages j done
      → done ≡ []
  Sealed-zero pages e start = refl
  Sealed-zero pages e (step k rs c l) = absurd (omega (arith, l.upward))

  nil_of_length : (rs : List WalRecord) → 0 ≡ length rs → rs ≡ []
  nil_of_length [] h = refl
  nil_of_length (x ∷ rs) h = absurd (omega arith)

  read_all-empty :
      (pages : List HeaderPage) (fuel : ℕ) (it : WalIterator)
      → has_next_record it ≡ false
      → read_all s pages fuel it ≡ some []
  unfolding read_all
  read_all-empty pages zero it h = rw h
  read_all-empty pages (suc fuel) it h = rw (h, read_all)

  -- Of a log whose last header page has been written.
  read_all-written :
      (w : Wal) (recs : List WalRecord) (fuel : ℕ)
      → length recs ≤ fuel
      → IsOpen s w recs
      → let pages = set w.pages w.current_header_page_idx w.buffer in
        read_all s pages fuel (at_page pages 0) ≡ some recs
  read_all-written w recs fuel enough o = rw (o.all) (
      read-Sealed s pages fuel n (Sealed-Agree s w.pages pages kept o.before) o.tail
        (omega (arith, lengths)) last)
    where
      pages : List HeaderPage
      pages = set w.pages w.current_header_page_idx w.buffer

      n : ℕ
      n = fuel - length o.done

      lengths : length recs ≡ length o.done + length o.tail
      lengths = ap length o.all ∙ length-append o.done o.tail

      kept :
          (i : ℕ)
          → i < w.current_header_page_idx
          → get_or w.pages i blank_page ≡ get_or pages i blank_page
      kept i h =
          sym (get_or-set_ne w.pages w.current_header_page_idx i w.buffer blank_page (omega arith))

      last : read_all s pages n (at_page pages w.current_header_page_idx) ≡ some o.tail
      last = rw (get_or-set_self w.pages w.current_header_page_idx w.buffer blank_page o.in_file) (
          read_last s pages w.buffer wal_header_page_prefix_field_sizes 0 n o.tail o.held
            (omega (arith, o.counted)) o.unlinked (omega (arith, lengths)))

  -- The iterator of getIterator reads the logged records.
  pub read_all-flush :
      (w : Wal) (recs : List WalRecord) (fuel : ℕ)
      → length recs ≤ fuel
      → IsLog s w recs
      → read_all s (flush_header_pages w).pages fuel (at_page (flush_header_pages w).pages 0)
        ≡ some recs
  unfolding flush_header_pages
  read_all-flush w recs fuel enough l = elim (Bool-cases (is_empty_wal w)) [
    | inr more ↦ rw more (read_all-written w recs fuel enough l.opened)
    | inl empty ↦ rw (empty, no_records empty) (read_all-empty w.pages fuel _ (nothing empty))
  ]
    where
      zeros : is_empty_wal w ≡ true → (w.current_header_page_idx ≡ 0) × (w.buffer.num_records ≡ 0)
      zeros e = unfold is_empty_wal in ground arith

      no_records : is_empty_wal w ≡ true → recs ≡ []
      no_records e =
          l.opened.all
          ∙ rw (Sealed-zero w.pages (zeros e).0 l.opened.before)
              (nil_of_length l.opened.tail (omega (arith, zeros e, l.opened.counted)))

      nothing : is_empty_wal w ≡ true → has_next_record (at_page w.pages 0) ≡ false
      nothing e = let none_read = l.unwritten ((zeros e).1) in ground arith

  last_is_commit-some : (recs : List WalRecord) → last_is_commit (some recs) ≡ ends_in_commit recs
  last_is_commit-some [] = refl
  last_is_commit-some (r ∷ []) = refl
  last_is_commit-some (r ∷ x ∷ rs) = last_is_commit-some (x ∷ rs)

  flushed_nonempty :
      (w : Wal) (recs : List WalRecord) → IsLog s w recs → 0 < length (flush_header_pages w).pages
  unfolding flush_header_pages
  flushed_nonempty w recs l =
      ground (arith, l.opened.in_file, length-set w.pages w.current_header_page_idx w.buffer)

  new_iterator_lem :
      (pages : List HeaderPage) (garbage : HeaderPage)
      → 0 < length pages
      → new_iterator pages garbage ≡ at_page pages 0
  unfolding new_iterator
  new_iterator_lem pages garbage h = ground arith

  -- The test of setIsLastRecordCommit on a file from which all records are read.
  set_is_last_record_commit_lem :
      (fuel : ℕ) (w : Wal) (recs : List WalRecord)
      → 0 < length w.pages
      → w.is_last_logged_record_commit ≡ false
      → read_all s w.pages fuel (at_page w.pages 0) ≡ some recs
      → (set_is_last_record_commit s fuel w).is_last_logged_record_commit ≡ ends_in_commit recs
  unfolding set_is_last_record_commit
  set_is_last_record_commit_lem fuel w recs h clear e = ground (
    arith,
    new_iterator_lem w.pages blank_page h,
    read_all-empty w.pages fuel (at_page w.pages 0),
    last_is_commit-some recs,
  )

  -- A WAL opened on the flushed file knows whether the last logged record is a commit.
  pub open_wal-flush :
      (w : Wal) (recs : List WalRecord) (fuel : ℕ)
      → length recs ≤ fuel
      → IsLog s w recs
      → (open_wal s fuel (flush_header_pages w).pages).is_last_logged_record_commit
        ≡ ends_in_commit recs
  unfolding open_wal
  open_wal-flush w recs fuel enough l =
      let p : List HeaderPage = (flush_header_pages w).pages in
      ground (
        arith,
        flushed_nonempty w recs l,
        set_is_last_record_commit_lem fuel
            (record {
              pages = p;
              buffer = get_or p 0 blank_page;
              offset = 2 ^ 63 - 1;
              current_header_page_idx = 0;
              is_last_logged_record_commit = false;
            })
            recs (flushed_nonempty w recs l) refl (read_all-flush w recs fuel enough l),
      )

  -- After any sequence of log calls on a cleared WAL, flushing the header pages and iterating over
  -- the file returns exactly the records logged, in their order. This holds for a record size that
  -- lets a record fit a header page, and as long as the file stays below 2 ^ 32 - 1 pages.
  pub read_all-log_all :
      (w : Wal) (ops : List Log) (fuel : ℕ)
      → 0 < s
      → wal_header_page_prefix_field_sizes + s ≤ wal_header_page_size
      → 1 + 2 * length ops < uint32_max
      → length (records_of s (clear_wal s w) ops) ≤ fuel
      → let pages = (flush_header_pages (log_all s (clear_wal s w) ops)).pages in
        read_all s pages fuel (new_iterator pages blank_page)
        ≡ some (records_of s (clear_wal s w) ops)
  read_all-log_all w ops fuel hs fits room enough =
      rw (new_iterator_lem _ blank_page (flushed_nonempty _ _ logged))
        (read_all-flush _ _ fuel enough logged)
    where
      logged : IsLog s (log_all s (clear_wal s w) ops) (records_of s (clear_wal s w) ops)
      logged =
          log_all-IsLog s (clear_wal s w) [] ops hs fits (unfold clear_wal in room)
            (clear_wal-IsLog w)

  -- After any sequence of log calls on a cleared WAL and a flush of the header pages, a WAL that is
  -- opened on the file reports a commit as its last record exactly when the last record logged was
  -- one, as the WAL that logged the records does. The bounds are those of `read_all-log_all`.
  pub open_wal-log_all :
      (w : Wal) (ops : List Log) (fuel : ℕ)
      → 0 < s
      → wal_header_page_prefix_field_sizes + s ≤ wal_header_page_size
      → 1 + 2 * length ops < uint32_max
      → length (records_of s (clear_wal s w) ops) ≤ fuel
      → let logged = log_all s (clear_wal s w) ops in
        ((open_wal s fuel (flush_header_pages logged).pages).is_last_logged_record_commit
          ≡ ends_in_commit (records_of s (clear_wal s w) ops))
        × (logged.is_last_logged_record_commit ≡ ends_in_commit (records_of s (clear_wal s w) ops))
  open_wal-log_all w ops fuel hs fits room enough =
      (open_wal-flush _ _ fuel enough logged, logged.commit_seen)
    where
      logged : IsLog s (log_all s (clear_wal s w) ops) (records_of s (clear_wal s w) ops)
      logged =
          log_all-IsLog s (clear_wal s w) [] ops hs fits (unfold clear_wal in room)
            (clear_wal-IsLog w)
