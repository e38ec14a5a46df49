-- ===== src/VersionedFileHandle/Pages.antt =====
-- The versions of the pages of a file as a map: what src/storage/buffer_manager/
-- versioned_file_handle.cpp shows after any calls.
use graphflowdb.Base.{
  ℕ, zero, suc, ◌<◌, ◌≤◌, ◌≡◌, ◌≢◌, refl, sym, ap, ◌∙◌, ◌⊎◌, inl, inr, Bool, true, false, not, ◌&&◌,
  List, [], ◌∷◌, Option, none, some, arith, ◌==◌, ltb, if◌then◌else◌, ℕ-cases, ==_of_ne, get_or,
  set, replicate, length, length-set, length-replicate, get_or-set_self, get_or-set_ne,
}
use graphflowdb.FileHandle.{uint32_max, ceil_div}
use graphflowdb.VersionedFileHandle.{
  VersionedFileHandle, is_empty, get_num_page_groups, group_of, pos_in_group,
  resize_page_group_locks_and_page_versions_to_num_page_groups_without_lock,
  has_wal_page_version_no_page_lock, get_wal_page_version_no_page_lock,
  create_page_version_group_if_necessary, set_wal_page_version,
}

==_of_eq : (a b : ℕ) → a ≡ b → (a == b) ≡ true
==_of_eq a b e = ground arith

-- What a group's vector says of a place in it: UINT32_MAX stands for no version.
abbrev pub tag : ℕ → Option ℕ
tag v = if v == uint32_max then none else some v

abbrev pub look : List ℕ → ℕ → Option ℕ
look l pos =
    if not (is_empty l) && not (get_or l pos 0 == uint32_max) then some (get_or l pos 0) else none

abbrev created : List ℕ → List ℕ
created l = if is_empty l then replicate 64 uint32_max else l

is_empty-set : (l : List ℕ) (i v : ℕ) → is_empty (set l i v) ≡ is_empty l
is_empty-set [] i v = refl
is_empty-set (x ∷ l) zero v = refl
is_empty-set (x ∷ l) (suc i) v = refl

not_empty : (l : List ℕ) (i : ℕ) → i < length l → is_empty l ≡ false
not_empty [] i h = absurd (omega (arith, h))
not_empty (x ∷ l) i h = refl

look-set_self : (l : List ℕ) (i v : ℕ) → i < length l → look (set l i v) i ≡ tag v
look-set_self l i v h =
    ground (arith, is_empty-set l i v, not_empty l i h, get_or-set_self l i v 0 h)

look-set_ne : (l : List ℕ) (i j v : ℕ) → i ≢ j → look (set l i v) j ≡ look l j
look-set_ne l i j v n = rw (is_empty-set l i v, get_or-set_ne l i j v 0 n)

get_or-replicate : (n a i d : ℕ) → i < n → get_or (replicate n a) i d ≡ a
get_or-replicate zero a i d h = absurd (omega (arith, h))
get_or-replicate (suc n) a zero d h = refl
get_or-replicate (suc n) a (suc i) d h = get_or-replicate n a i d (omega (arith, h))

look-created : (l : List ℕ) (i : ℕ) → i < 64 → look (created l) i ≡ look l i
look-created [] i h =
    ap (λ x. if not (x == uint32_max) then some x else none) (get_or-replicate 64 uint32_max i 0 h)
look-created (x ∷ l) i h = refl

length-created : (l : List ℕ) → (l ≡ []) ⊎ (length l ≡ 64) → length (created l) ≡ 64
length-created l (inl e) = rw e (length-replicate 64 uint32_max)
length-created [] (inr e) = length-replicate 64 uint32_max
length-created (x ∷ l) (inr e) = e

stored-look :
    (l : List ℕ) (p q v : ℕ)
    → (l ≡ []) ⊎ (length l ≡ 64)
    → look
        (if group_of p == group_of q then set (created l) (pos_in_group p) v else l)
        (pos_in_group q)
      ≡ (if p == q then tag v else look l (pos_in_group q))
stored-look l p q v h =
    let inside : pos_in_group p < length (created l) = omega (arith, length-created l h) in
    elim (ℕ-cases (group_of p) (group_of q)) [
      | inl g ↦
          ap (λ b. look (if b then set (created l) (pos_in_group p) v else l) (pos_in_group q))
            (==_of_eq _ _ g)
          ∙ elim (ℕ-cases p q) [
            | inl e ↦
                ap (λ x. look (set (created l) (pos_in_group p) v) (pos_in_group x)) (sym e)
                ∙ look-set_self (created l) (pos_in_group p) v inside
                ∙ sym (ap (λ b. if b then tag v else look l (pos_in_group q)) (==_of_eq _ _ e))
            | inr n ↦
                look-set_ne (created l) (pos_in_group p) (pos_in_group q) v
                  (λ e. n (omega (arith, e, g)))
                ∙ look-created l (pos_in_group q) (omega arith)
                ∙ sym (ap (λ b. if b then tag v else look l (pos_in_group q)) (==_of_ne _ _ n))
          ]
      | inr g ↦
          ap (λ b. look (if b then set (created l) (pos_in_group p) v else l) (pos_in_group q))
            (==_of_ne _ _ g)
          ∙ sym (
              ap (λ b. if b then tag v else look l (pos_in_group q))
                (==_of_ne _ _ (λ e. g (ap group_of e))))
    ]

module _ {Page : Type 0} where
  -- The version of a page in the log, as the two functions that read it say.
  abbrev pub logged_version : VersionedFileHandle Page → ℕ → Option ℕ
  logged_version h p =
      if has_wal_page_version_no_page_lock h p
      then some (get_wal_page_version_no_page_lock h p)
      else none

-- The vector of locks has one for each group of pages, and a group's vector of versions is empty
-- or full, and empty behind the last group.
pub record IsGrouped {Page : Type 0} (h : VersionedFileHandle Page) : Type 0 where
  pub locks : h.num_page_group_locks ≡ get_num_page_groups h
  pub full : (g : ℕ) → (h.page_versions g ≡ []) ⊎ (length (h.page_versions g) ≡ 64)
  pub beyond : (g : ℕ) → get_num_page_groups h ≤ g → h.page_versions g ≡ []

module _ {Page : Type 0} where
  pub logged_version-look :
      (h : VersionedFileHandle Page) (p : ℕ)
      → logged_version h p ≡ look (h.page_versions (group_of p)) (pos_in_group p)
  unfolding has_wal_page_version_no_page_lock get_wal_page_version_no_page_lock
  logged_version-look h p = refl

  -- A group is created and one of its versions set.
  abbrev pub store : VersionedFileHandle Page → ℕ → ℕ → VersionedFileHandle Page
  store h p v = set_wal_page_version (create_page_version_group_if_necessary h p) p v

  store-versions :
      (h : VersionedFileHandle Page) (p v g : ℕ)
      → (store h p v).page_versions g ≡ (
          if group_of p == g
          then set (created (h.page_versions g)) (pos_in_group p) v
          else h.page_versions g)
  unfolding create_page_version_group_if_necessary set_wal_page_version
  store-versions h p v g = ground arith

  store-num_page_group_locks :
      (h : VersionedFileHandle Page) (p v : ℕ)
      → (store h p v).num_page_group_locks ≡ h.num_page_group_locks
  unfolding create_page_version_group_if_necessary set_wal_page_version
  store-num_page_group_locks h p v = ground arith

  pub store-file_handle :
      (h : VersionedFileHandle Page) (p v : ℕ) → (store h p v).file_handle ≡ h.file_handle
  unfolding create_page_version_group_if_necessary set_wal_page_version
  store-file_handle h p v = ground arith

  pub store-logged_version :
      (h : VersionedFileHandle Page) (p v q : ℕ)
      → IsGrouped h
      → logged_version (store h p v) q ≡ (if p == q then tag v else logged_version h q)
  store-logged_version h p v q w =
      logged_version-look (store h p v) q
      ∙ ap (λ x. look x (pos_in_group q)) (store-versions h p v (group_of q))
      ∙ stored-look (h.page_versions (group_of q)) p q v (w.full (group_of q))
      ∙ ap (λ x. if p == q then tag v else x) (sym (logged_version-look h q))

  pub store-IsGrouped :
      (h : VersionedFileHandle Page) (p v : ℕ)
      → p < (h.file_handle).num_pages
      → IsGrouped h
      → IsGrouped (store h p v)
  store-IsGrouped h p v lt w =
      let groups = ap (λ x. ceil_div (x.num_pages) 64) (store-file_handle h p v) in
      record {
        locks = store-num_page_group_locks h p v ∙ w.locks ∙ sym groups;
        full = λ g.
            stored_full (h.page_versions g) (group_of p == g) (store-versions h p v g) (w.full g);
        beyond = λ g le.
            store-versions h p v g
            ∙ ap
                (λ b.
                  if b
                  then set (created (h.page_versions g)) (pos_in_group p) v
                  else h.page_versions g)
                (==_of_ne (group_of p) g (λ e. omega (arith, e, le, groups, lt)))
            ∙ w.beyond g (omega (arith, le, groups));
      }
    where
      stored_full :
          (l : List ℕ) {l' : List ℕ} (b : Bool)
          → l' ≡ (if b then set (created l) (pos_in_group p) v else l)
          → (l ≡ []) ⊎ (length l ≡ 64)
          → (l' ≡ []) ⊎ (length l' ≡ 64)
      stored_full l true e h' =
          inr (ap length e ∙ length-set (created l) (pos_in_group p) v ∙ length-created l h')
      stored_full l false e (inl h') = inl (e ∙ h')
      stored_full l false e (inr h') = inr (ap length e ∙ h')

  -- The vectors take the size that the file's pages ask for.
  abbrev pub resized : VersionedFileHandle Page → VersionedFileHandle Page
  resized h = resize_page_group_locks_and_page_versions_to_num_page_groups_without_lock h

  pub resized-file_handle : (h : VersionedFileHandle Page) → (resized h).file_handle ≡ h.file_handle
  unfolding resize_page_group_locks_and_page_versions_to_num_page_groups_without_lock
  resized-file_handle h = ground arith

  resized-versions :
      (h : VersionedFileHandle Page) (g : ℕ)
      → (h.num_page_group_locks ≤ g → h.page_versions g ≡ [])
      → (resized h).page_versions g
        ≡ (if ltb g (get_num_page_groups h) then h.page_versions g else [])
  unfolding resize_page_group_locks_and_page_versions_to_num_page_groups_without_lock
  resized-versions h g beyond = ground arith

  resized-locks :
      (h : VersionedFileHandle Page) → (resized h).num_page_group_locks ≡ get_num_page_groups h
  unfolding resize_page_group_locks_and_page_versions_to_num_page_groups_without_lock
  resized-locks h = ground arith

  pub resized-IsGrouped :
      (h : VersionedFileHandle Page)
      → ((g : ℕ) → (h.page_versions g ≡ []) ⊎ (length (h.page_versions g) ≡ 64))
      → ((g : ℕ) → h.num_page_group_locks ≤ g → h.page_versions g ≡ [])
      → IsGrouped (resized h)
  resized-IsGrouped h full beyond =
      let groups = ap (λ x. ceil_div (x.num_pages) 64) (resized-file_handle h) in
      record {
        locks = resized-locks h ∙ sym groups;
        full = λ g. cut (ltb g (get_num_page_groups h)) (resized-versions h g (beyond g)) (full g);
        beyond = λ g le.
            resized-versions h g (beyond g)
            ∙ past g (get_num_page_groups h) (h.page_versions g) (omega (arith, le, groups));
      }
    where
      cut :
          {l l' : List ℕ} (b : Bool)
          → l' ≡ (if b then l else [])
          → (l ≡ []) ⊎ (length l ≡ 64)
          → (l' ≡ []) ⊎ (length l' ≡ 64)
      cut true e (inl h') = inl (e ∙ h')
      cut true e (inr h') = inr (ap length e ∙ h')
      cut false e h' = inl e

      past : (g n : ℕ) (l : List ℕ) → n ≤ g → (if ltb g n then l else []) ≡ []
      past g n l le = ground arith

  pub resized-logged_version :
      (h : VersionedFileHandle Page) (q : ℕ)
      → ((g : ℕ) → h.num_page_group_locks ≤ g → h.page_versions g ≡ [])
      → logged_version (resized h) q
        ≡ (if ltb (group_of q) (get_num_page_groups h) then logged_version h q else none)
  resized-logged_version h q beyond =
      logged_version-look (resized h) q
      ∙ ap (λ l. look l (pos_in_group q)) (resized-versions h (group_of q) (beyond (group_of q)))
      ∙ cut (ltb (group_of q) (get_num_page_groups h))
    where
      cut :
          (b : Bool)
          → look (if b then h.page_versions (group_of q) else []) (pos_in_group q)
            ≡ (if b then logged_version h q else none)
      cut true = sym (logged_version-look h q)
      cut false = refl
