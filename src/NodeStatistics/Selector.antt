-- ===== src/NodeStatistics/Selector.antt =====
-- setDeletedNodeOffsetsForMorsel: the positions of a scanned morsel whose nodes are not deleted.
use graphflowdb.Base.{
  ℕ, zero, suc, ◌+◌, ◌-◌, ◌*◌, ◌/◌, ◌≤◌, ◌<◌, ◌≡◌, ◌⊎◌, inl, inr, refl, Bool, true, false, List, [],
  ◌∷◌, none, some, arith, length, get_or, get_elem?, if◌then◌else◌, ◌==◌, contains, Option-cases,
}
use graphflowdb.NodeStatistics.{
  default_vector_capacity, NodeStatistics, Result, ok, undefined, find, is_deleted,
}
use graphflowdb.NodeStatistics.Sets.{
  Ascending, Ascending-weaken, find-Ascending, Ascending-cap, find_nonempty, contains_bounds,
}
use graphflowdb.NodeStatistics.Validity.{IsValid, get_or-true, get_elem?-get_or}

abbrev pub uint16_max : ℕ
uint16_max = 65535

-- The selection vector: the positions written to its buffer, and its size.
pub record Selection : Type 0 where
  pub selected_positions : List ℕ
  pub selected_size : ℕ

-- nextDeletedNodeOffset after itr++, and the iterator behind it.
abbrev next_deleted : ℕ → List ℕ → ℕ
next_deleted morsel_begin [] = uint16_max
next_deleted morsel_begin (d ∷ ds) = d - morsel_begin

abbrev advance : List ℕ → List ℕ
advance [] = []
advance (d ∷ ds) = ds

-- The loop from position `pos` with `n` rounds to go; `ds` stands behind the iterator.
scan : ℕ → ℕ → ℕ → ℕ → List ℕ → List ℕ
scan morsel_begin zero pos next ds = []
scan morsel_begin (suc n) pos next ds =
    let skips = scan morsel_begin n (pos + 1) (next_deleted morsel_begin ds) (advance ds) in
    let keeps = scan morsel_begin n (pos + 1) next ds in if pos == next then skips else pos ∷ keeps

pub set_deleted_node_offsets_for_morsel : NodeStatistics → ℕ → ℕ → Selection → Result Selection
unfolding scan
set_deleted_node_offsets_for_morsel s first_node_offset original_size selection =
    let k = first_node_offset / default_vector_capacity in
    let morsel_begin = k * default_vector_capacity in
    elim (get_elem? s.has_deleted_nodes_per_morsel k) [
      | none ↦ undefined
      | some false ↦ ok selection
      | some true ↦ elim (find k s.deleted_node_offsets_per_morsel) [
        | none ↦ undefined
        | some [] ↦ undefined
        | some (d ∷ ds) ↦ ok (record {
          selected_positions = scan morsel_begin original_size 0 (d - morsel_begin) ds;
          selected_size = original_size - length (d ∷ ds);
        })
      ]
    ]

-- The positions from `pos` on, `n` of them, without those that satisfy the test.
abbrev pub positions_without : (ℕ → Bool) → ℕ → ℕ → List ℕ
positions_without p zero pos = []
positions_without p (suc n) pos =
    if p pos then positions_without p n (pos + 1) else pos ∷ positions_without p n (pos + 1)

positions_without-agree :
    (p q : ℕ → Bool) (n pos : ℕ)
    → ((i : ℕ) → pos ≤ i → i < pos + n → p i ≡ q i)
    → positions_without p n pos ≡ positions_without q n pos
positions_without-agree p q zero pos h = refl
positions_without-agree p q (suc n) pos h = ground (
  arith,
  h pos,
  positions_without-agree p q n (pos + 1) (λ i l u. h i (omega arith) (omega arith)),
)

abbrev in_set : ℕ → List ℕ → ℕ → Bool
in_set b v i = contains (b + i) v

-- Past an element the set without it gives the same positions.
in_set-drop :
    (b d : ℕ) (ds : List ℕ) (n pos : ℕ)
    → d < b + pos
    → positions_without (in_set b (d ∷ ds)) n pos ≡ positions_without (in_set b ds) n pos
in_set-drop b d ds n pos h = positions_without-agree _ _ n pos (λ i l u. ground arith)

-- No element left.
scan-nil :
    (b n pos : ℕ)
    → pos + n ≤ uint16_max
    → scan b n pos uint16_max [] ≡ positions_without (in_set b []) n pos
unfolding scan
scan-nil b zero pos h = refl
scan-nil b (suc n) pos h = ground (arith, scan-nil b n (pos + 1))

not_contains : (a lo hi : ℕ) (xs : List ℕ) → Ascending lo hi xs → a < lo → contains a xs ≡ false
not_contains a lo hi xs h lt = ground (arith, contains_bounds a lo hi xs h)

scan-cons :
    (b hi d n pos : ℕ) (ds : List ℕ)
    → Ascending (b + pos) hi (d ∷ ds)
    → pos + n ≤ uint16_max
    → scan b n pos (d - b) ds ≡ positions_without (in_set b (d ∷ ds)) n pos
unfolding scan
scan-cons b hi d zero pos ds a h = refl
scan-cons b hi d (suc n) pos [] a h =
    ground (
      arith,
      scan-nil b n (pos + 1),
      in_set-drop b d [] n (pos + 1),
      scan-cons b hi d n (pos + 1) [],
    )
scan-cons b hi d (suc n) pos (e ∷ es) a h = ground (
  arith,
  scan-cons b hi e n (pos + 1) es,
  in_set-drop b d (e ∷ es) n (pos + 1),
  scan-cons b hi d n (pos + 1) (e ∷ es),
  not_contains (b + pos) (d + 1) hi (e ∷ es) a.2,
)

-- The elements are among the positions, so as many positions are left out.
length-positions_without :
    (b n pos : ℕ) (v : List ℕ)
    → Ascending (b + pos) (b + pos + n) v
    → length (positions_without (in_set b v) n pos) + length v ≡ n
length-positions_without b zero pos [] a = omega arith
length-positions_without b zero pos (d ∷ ds) a = absurd (omega arith)
length-positions_without b (suc n) pos [] a =
    omega (arith, length-positions_without b n (pos + 1) [] tt)
length-positions_without b (suc n) pos (d ∷ ds) a =
    let hi : b + pos + suc n ≡ b + (pos + 1) + n = omega arith in
    let tail : Ascending (d + 1) (b + (pos + 1) + n) ds = rw hi at a.2 in
    ground (
      arith,
      in_set-drop b d ds n (pos + 1),
      Ascending-weaken (d + 1) (b + (pos + 1)) (b + (pos + 1) + n) ds,
      length-positions_without b n (pos + 1) ds,
      length-positions_without b n (pos + 1) (d ∷ ds),
      not_contains (b + pos) (d + 1) (b + (pos + 1) + n) ds tail,
    )

module _ (s : NodeStatistics) (valid : IsValid s) (first_node_offset original_size : ℕ)
    (selection : Selection) where
  -- The positions, from the first node of the morsel, whose nodes are not deleted.
  abbrev pub live_positions : List ℕ
  live_positions =
      positions_without
        (λ i.
          is_deleted s (first_node_offset / default_vector_capacity * default_vector_capacity + i))
        original_size 0

  in_set-is_deleted :
      (v : List ℕ)
      → original_size ≤ default_vector_capacity
      → find (first_node_offset / default_vector_capacity) s.deleted_node_offsets_per_morsel
        ≡ some v
      → positions_without
          (in_set (first_node_offset / default_vector_capacity * default_vector_capacity) v)
          original_size
          0
        ≡ live_positions
  unfolding is_deleted
  in_set-is_deleted v small e = positions_without-agree _ _ original_size 0 λ i l u.
      let at : (first_node_offset / default_vector_capacity * default_vector_capacity + i)
            / default_vector_capacity
          ≡ first_node_offset / default_vector_capacity =
        omega arith in
      rw (at, e)

  selected :
      (v : List ℕ)
      → original_size ≤ default_vector_capacity
      → (original_size ≡ default_vector_capacity)
        ⊎ (s.num_tuples
            ≤ first_node_offset / default_vector_capacity * default_vector_capacity + original_size)
      → get_or s.has_deleted_nodes_per_morsel (first_node_offset / default_vector_capacity) false
        ≡ true
      → find (first_node_offset / default_vector_capacity) s.deleted_node_offsets_per_morsel
        ≡ some v
      → set_deleted_node_offsets_for_morsel s first_node_offset original_size selection
        ≡ ok (record { selected_positions = live_positions; selected_size = length live_positions })
  unfolding set_deleted_node_offsets_for_morsel
  selected [] small whole flag e =
      absurd (omega (arith, find_nonempty _ 0 s.deleted_node_offsets_per_morsel [] valid.sorted e))
  selected (d ∷ ds) small whole flag e = ground (
    arith,
    get_elem?-get_or s.has_deleted_nodes_per_morsel k
        (get_or-true s.has_deleted_nodes_per_morsel k flag),
    scan-cons b (b + default_vector_capacity) d original_size 0 ds in_morsel,
    in_set-is_deleted (d ∷ ds) small e,
    length-positions_without b original_size 0 (d ∷ ds) in_range,
  )
    where
      k : ℕ
      k = first_node_offset / default_vector_capacity

      b : ℕ
      b = k * default_vector_capacity

      ascending : Ascending b (b + default_vector_capacity) (d ∷ ds)
      ascending = find-Ascending k 0 s.deleted_node_offsets_per_morsel (d ∷ ds) valid.sorted e

      in_morsel : Ascending (b + 0) (b + default_vector_capacity) (d ∷ ds)
      in_morsel = Ascending-weaken b (b + 0) _ (d ∷ ds) (omega arith) ascending

      below : (x : ℕ) → contains x (d ∷ ds) ≡ true → x < b + 0 + original_size
      below x h =
          let bounds = contains_bounds x b (b + default_vector_capacity) (d ∷ ds) ascending h in
          let at : x / default_vector_capacity ≡ k = omega arith in
          let deleted : is_deleted s x ≡ true = unfold is_deleted in rw (at, e) h in
          omega (arith, valid.exist x deleted)

      in_range : Ascending (b + 0) (b + 0 + original_size) (d ∷ ds)
      in_range = Ascending-cap (b + 0) _ (b + 0 + original_size) (d ∷ ds) below in_morsel

  -- On valid statistics, in a morsel with deleted nodes the loop selects exactly the positions of
  -- the nodes that are not deleted, in ascending order, and the size it sets is their number. The
  -- scanned vector holds a whole morsel, or all nodes from the morsel's first one on.
  pub selects_live :
      original_size ≤ default_vector_capacity
      → (original_size ≡ default_vector_capacity)
        ⊎ (s.num_tuples
            ≤ first_node_offset / default_vector_capacity * default_vector_capacity + original_size)
      → get_or s.has_deleted_nodes_per_morsel (first_node_offset / default_vector_capacity) false
        ≡ true
      → set_deleted_node_offsets_for_morsel s first_node_offset original_size selection
        ≡ ok (record { selected_positions = live_positions; selected_size = length live_positions })
  selects_live small whole flag =
      elim (Option-cases
        (find (first_node_offset / default_vector_capacity) s.deleted_node_offsets_per_morsel)) [
          | inl e ↦
              absurd (ground (arith, valid.flags (first_node_offset / default_vector_capacity)))
          | inr (v, e) ↦ selected v small whole flag e
        ]
