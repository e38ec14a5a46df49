-- ===== src/Wal/Chain.antt =====
-- The header pages of the WAL file as a chain: the records that stand in the pages before the
-- current one, and what the iterator reads from such a chain.
use mathlib.Core.List.{append_assoc}
use graphflowdb.Base.{
  ℕ, zero, suc, ◌+◌, ◌≤◌, ◌<◌, ◌≡◌, refl, List, [], ◌∷◌, ◌++◌, Option, some, arith, length, get_or,
  length-append,
}
use graphflowdb.Wal.{
  uint32_max, wal_header_page_prefix_field_sizes, HeaderPage, blank_page, WalIterator, store_at,
  get_next_record, read_all,
}
use graphflowdb.Wal.Record.{WalRecord}

-- The iterator at the first record of a header page.
abbrev pub at_page : List HeaderPage → ℕ → WalIterator
at_page pages j = record {
  buffer = get_or pages j blank_page;
  offset = wal_header_page_prefix_field_sizes;
  num_records_read = 0;
}

module _ (s : ℕ) where
  -- The records stand one after another from the byte offset on.
  abbrev pub Holds : (ℕ → Option WalRecord) → ℕ → List WalRecord → Type 0
  Holds f o [] = Unit {0}
  Holds f o (r ∷ rs) = (f o ≡ some r) × Holds f (o + s) rs

  abbrev pub end_offset : ℕ → List WalRecord → ℕ
  end_offset o [] = o
  end_offset o (r ∷ rs) = end_offset (o + s) rs

  pub le-end_offset : (o : ℕ) (rs : List WalRecord) → o ≤ end_offset o rs
  le-end_offset o [] = omega arith
  le-end_offset o (r ∷ rs) = omega (arith, le-end_offset (o + s) rs)

  pub end_offset-append :
      (o : ℕ) (rs : List WalRecord) (r : WalRecord)
      → end_offset o (rs ++ (r ∷ [])) ≡ end_offset o rs + s
  end_offset-append o [] r = refl
  end_offset-append o (x ∷ rs) r = end_offset-append (o + s) rs r

  -- A record written at the end joins those before it.
  pub Holds-store :
      (f : ℕ → Option WalRecord) (o e : ℕ) (rs : List WalRecord) (r : WalRecord)
      → 0 < s
      → e ≡ end_offset o rs
      → Holds f o rs
      → Holds (store_at f e r) o (rs ++ (r ∷ []))
  Holds-store f o e [] r hs he h = (ground arith, tt)
  Holds-store f o e (x ∷ rs) r hs he h =
      (ground (arith, le-end_offset (o + s) rs), Holds-store f (o + s) e rs r hs he h.1)

  -- Page `j` holds the records `rs`, all of them, and links to page `k`.
  pub record Links (pages : List HeaderPage) (j k : ℕ) (rs : List WalRecord) : Type 0 where
    pub nonempty : 0 < length rs
    pub counted : (get_or pages j blank_page).num_records ≡ length rs
    pub held : Holds (get_or pages j blank_page).record_at wal_header_page_prefix_field_sizes rs
    pub linked : (get_or pages j blank_page).next_header_page ≡ k
    pub upward : j < k
    pub in_range : k < uint32_max

  -- The header pages from page 0 up to page `j`, without `j`, hold the records.
  pub data Sealed (pages : List HeaderPage) : ℕ → List WalRecord → Type 0 where
    start : Sealed pages 0 []
    step :
        {j : ℕ} {done : List WalRecord} (k : ℕ) (rs : List WalRecord)
        → Sealed pages j done
        → Links pages j k rs
        → Sealed pages k (done ++ rs)

  abbrev pub Agree : List HeaderPage → List HeaderPage → ℕ → Type 0
  Agree p q j = (i : ℕ) → i < j → get_or p i blank_page ≡ get_or q i blank_page

  Links-agree :
      (p q : List HeaderPage) (j k : ℕ) (rs : List WalRecord)
      → get_or p j blank_page ≡ get_or q j blank_page
      → Links p j k rs
      → Links q j k rs
  Links-agree p q j k rs e l = record {
    nonempty = l.nonempty;
    counted = rw (← e) l.counted;
    held = rw (← e) l.held;
    linked = rw (← e) l.linked;
    upward = l.upward;
    in_range = l.in_range;
  }

  -- The chain before page `j` depends on the pages before `j` only.
  pub Sealed-Agree :
      (p q : List HeaderPage) {j : ℕ} {done : List WalRecord}
      → Agree p q j
      → Sealed p j done
      → Sealed q j done
  Sealed-Agree p q e start = start
  Sealed-Agree p q e (step {j = j} k rs c l) =
      step k rs (Sealed-Agree p q (λ i h. e i (omega (arith, l.upward))) c)
        (Links-agree p q j k rs (e j l.upward) l)

  -- Reading a used-up page: its records, and then what the page it links to gives.
  read_linked :
      (pages : List HeaderPage) (b : HeaderPage) (o m fuel n k : ℕ) (rs rest : List WalRecord)
      → Holds b.record_at o rs
      → m + length rs ≡ b.num_records
      → 0 < length rs
      → b.next_header_page ≡ k
      → k < uint32_max
      → fuel ≡ length rs + n
      → read_all s pages n (at_page pages k) ≡ some rest
      → read_all s pages fuel (record { buffer = b; offset = o; num_records_read = m })
        ≡ some (rs ++ rest)
  unfolding read_all get_next_record
  read_linked pages b o m fuel n k [] rest h c z l r f e = absurd (omega arith)
  read_linked pages b o m zero n k (x ∷ rs) rest h c z l r f e = absurd (omega arith)
  read_linked pages b o m (suc fuel) n k (x ∷ []) rest h c z l r f e =
      let same : fuel ≡ n = omega arith in
      let e' : read_all s pages fuel (at_page pages b.next_header_page) ≡ some rest =
        rw (same, l) e in
      ground arith
  read_linked pages b o m (suc fuel) n k (x ∷ y ∷ rs) rest h c z l r f e =
      ground (arith, read_linked pages b (o + s) (m + 1) fuel n k (y ∷ rs) rest h.1)

  pub read_last :
      (pages : List HeaderPage) (b : HeaderPage) (o m fuel : ℕ) (rs : List WalRecord)
      → Holds b.record_at o rs
      → m + length rs ≡ b.num_records
      → b.next_header_page ≡ uint32_max
      → length rs ≤ fuel
      → read_all s pages fuel (record { buffer = b; offset = o; num_records_read = m }) ≡ some rs
  unfolding read_all get_next_record
  read_last pages b o m zero [] h c l f = ground arith
  read_last pages b o m (suc fuel) [] h c l f = ground arith
  read_last pages b o m zero (x ∷ rs) h c l f = absurd (omega arith)
  read_last pages b o m (suc fuel) (x ∷ rs) h c l f =
      ground (arith, read_last pages b (o + s) (m + 1) fuel rs h.1)

  -- From page 0 the iterator reads the records of the chain, and goes on at page `j`.
  pub read-Sealed :
      (pages : List HeaderPage) (fuel n : ℕ) {j : ℕ} {done : List WalRecord}
      → Sealed pages j done
      → (rest : List WalRecord) → fuel ≡ length done + n
      → read_all s pages n (at_page pages j) ≡ some rest
      → read_all s pages fuel (at_page pages 0) ≡ some (done ++ rest)
  read-Sealed pages fuel n start rest f e = let same : fuel ≡ n = omega arith in rw same e
  read-Sealed pages fuel n (step {j = j} {done = done} k rs c l) rest f e =
      rw (append_assoc done rs rest) (
        read-Sealed pages fuel (length rs + n) c (rs ++ rest) (omega (arith, length-append done rs))
          (read_linked pages (get_or pages j blank_page) wal_header_page_prefix_field_sizes 0
            (length rs + n) n k rs rest l.held (omega (arith, l.counted)) l.nonempty l.linked
            l.in_range refl e))
