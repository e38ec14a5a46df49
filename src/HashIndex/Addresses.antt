-- ===== src/HashIndex/Addresses.antt =====
-- Where a split of src/storage/index/in_mem_hash_index.cpp leaves and moves the keys.
use graphflowdb.Base.{
  ℕ, zero, suc, ◌+◌, ◌-◌, ◌*◌, ◌%◌, ◌^◌, ◌<◌, ◌≡◌, refl, ap, ◌∙◌, ◌≢◌, ◌⊎◌, inl, inr, arith, ltb,
  leb, if◌then◌else◌, Bool-cases, ℕ-cases,
}
use native.Mathlib.Nat.{mod-lt, pow-le-pow_right}
use graphflowdb.HashIndex.{
  HashIndexHeader, InMemHashIndex, new_in_mem_hash_index, one_shifted, increment_level,
  increment_next_split_slot_id, get_primary_slot_id_for_key, new_slot_id, split_slot_without_lock,
}
use graphflowdb.HashIndex.Masks.{pow_positive, pow_double, mod_double, bit_and_ones}

-- The header describes a linear hash table with the slots that are allocated.
record IsLinear (i : InMemHashIndex) : Type 0 where
  mask : i.index_header.level_hash_mask ≡ 2 ^ i.index_header.current_level - 1
  higher_mask : i.index_header.higher_level_hash_mask ≡ 2 ^ suc (i.index_header.current_level) - 1
  next : i.index_header.next_split_slot_id < 2 ^ i.index_header.current_level
  slots :
      i.next_slot_id_to_allocate
      ≡ 2 ^ i.index_header.current_level + i.index_header.next_split_slot_id

shifted : (n : ℕ) → n < 31 → one_shifted n ≡ 2 ^ n
unfolding one_shifted
shifted n lt = ground arith

below_level : (l : ℕ) → 2 ^ l < 2 ^ 30 → l < 30
below_level l lt = elim (Bool-cases (ltb l 30)) [
  | inl e ↦ ground arith
  | inr e ↦
      absurd (omega (arith, pow-le-pow_right {n = 2} (omega arith) {i = 30} {j = l} (ground arith)))
]

raised_below : (l : ℕ) → 2 * 2 ^ l < 2 ^ 30 → suc l < 30
raised_below l lt = below_level (suc l) (omega (arith, pow_double l))

split-IsLinear :
    (i : InMemHashIndex)
    → IsLinear i
    → i.next_slot_id_to_allocate + 1 < 2 ^ 30
    → IsLinear (split_slot_without_lock i)
unfolding split_slot_without_lock increment_next_split_slot_id increment_level
split-IsLinear i lin lt =
    let l = i.index_header.current_level in
    elim (Bool-cases (ltb (i.index_header.next_split_slot_id) (2 ^ l - 1))) [
      | inl e ↦ rw (e) record {
        mask = lin.mask;
        higher_mask = lin.higher_mask;
        next = ground arith;
        slots = omega (arith, lin.slots);
      }
      | inr e ↦
          let low' = raised_below l (ground (arith, lin.next, lin.slots, lt)) in
          rw (e) record {
            mask = ap (λ t. t - 1) (shifted (suc l) (omega (arith, low')));
            higher_mask = ap (λ t. t - 1) (shifted (suc (suc l)) (omega (arith, low')));
            next = pow_positive (suc l);
            slots = ground (arith, pow_double l, lin.slots, lin.next);
          }
    ]

-- An address by remainders.
abbrev remainder_of : HashIndexHeader → ℕ → ℕ
remainder_of h hash =
    if ltb (hash % 2 ^ h.current_level) (h.next_split_slot_id)
    then hash % 2 ^ suc (h.current_level)
    else hash % 2 ^ h.current_level

address-remainder :
    (i : InMemHashIndex)
    → IsLinear i
    → (hash : ℕ)
    → get_primary_slot_id_for_key (i.index_header) hash ≡ remainder_of (i.index_header) hash
unfolding get_primary_slot_id_for_key
address-remainder i lin hash =
    rw
      (
        lin.mask,
        lin.higher_mask,
        bit_and_ones (i.index_header.current_level) hash,
        bit_and_ones (suc (i.index_header.current_level)) hash,
      )
      refl

after_split :
    (i : InMemHashIndex) (hash : ℕ)
    → i.index_header.next_split_slot_id < 2 ^ i.index_header.current_level
    → remainder_of ((split_slot_without_lock i).index_header) hash ≡ (
        if leb (hash % 2 ^ i.index_header.current_level) (i.index_header.next_split_slot_id)
        then hash % 2 ^ suc (i.index_header.current_level)
        else hash % 2 ^ i.index_header.current_level)
unfolding split_slot_without_lock increment_next_split_slot_id increment_level
after_split i hash lt =
    let l = i.index_header.current_level in
    let low = mod-lt hash (pow_positive l) in
    elim (Bool-cases (ltb (i.index_header.next_split_slot_id) (2 ^ l - 1))) [
      | inl e ↦ rw (e) (ground arith)
      | inr e ↦ rw (e) (ground arith)
    ]

address_after :
    (i : InMemHashIndex)
    → IsLinear i
    → i.next_slot_id_to_allocate + 1 < 2 ^ 30
    → (hash : ℕ)
    → get_primary_slot_id_for_key ((split_slot_without_lock i).index_header) hash ≡ (
        if leb (hash % 2 ^ i.index_header.current_level) (i.index_header.next_split_slot_id)
        then hash % 2 ^ suc (i.index_header.current_level)
        else hash % 2 ^ i.index_header.current_level)
address_after i lin lt hash =
    address-remainder (split_slot_without_lock i) (split-IsLinear i lin lt) hash
    ∙ after_split i hash (lin.next)

new_slot-remainder :
    (i : InMemHashIndex)
    → IsLinear i
    → (hash : ℕ) → new_slot_id (i.index_header) hash ≡ hash % 2 ^ suc (i.index_header.current_level)
unfolding new_slot_id
new_slot-remainder i lin hash =
    rw (lin.higher_mask) (bit_and_ones (suc (i.index_header.current_level)) hash)

-- What a key's address is before and after the next split.
pub record IsAddressed (i : InMemHashIndex) (hash : ℕ) : Type 0 where
  pub allocated : get_primary_slot_id_for_key (i.index_header) hash < i.next_slot_id_to_allocate
  pub split :
      ((get_primary_slot_id_for_key (i.index_header) hash ≢ i.index_header.next_split_slot_id)
        × (get_primary_slot_id_for_key ((split_slot_without_lock i).index_header) hash
            ≡ get_primary_slot_id_for_key (i.index_header) hash))
      ⊎ ((get_primary_slot_id_for_key (i.index_header) hash ≡ i.index_header.next_split_slot_id)
          × (get_primary_slot_id_for_key ((split_slot_without_lock i).index_header) hash
              ≡ new_slot_id (i.index_header) hash)
          × ((new_slot_id (i.index_header) hash ≡ i.index_header.next_split_slot_id)
              ⊎ (new_slot_id (i.index_header) hash ≡ i.next_slot_id_to_allocate)))

linear-IsAddressed :
    (i : InMemHashIndex)
    → IsLinear i
    → i.next_slot_id_to_allocate + 1 < 2 ^ 30
    → (hash : ℕ) → IsAddressed i hash
linear-IsAddressed i lin lt hash =
    let l = i.index_header.current_level in
    let before = address-remainder i lin hash in
    let after = address_after i lin lt hash in
    let new = new_slot-remainder i lin hash in
    let low = mod-lt hash (pow_positive l) in
    let bit = mod_double hash (2 ^ l) (pow_positive l) in
    let wide = ap (λ t. hash % t) (pow_double l) in
    record {
      allocated = ground (arith, before, bit, wide, lin.slots, lin.next);
      split =
          elim (ℕ-cases (get_primary_slot_id_for_key (i.index_header) hash)
            (i.index_header.next_split_slot_id)) [
              | inl e ↦ inr (
                e,
                ground (arith, before, after, new, bit, wide, lin.next),
                ground (arith, before, new, bit, wide, lin.slots, lin.next),
              )
              | inr ne ↦ inl (ne, ground (arith, before, after, bit, wide, lin.next))
            ];
    }

unfoldable pub split_times : ℕ → InMemHashIndex
split_times zero = new_in_mem_hash_index
split_times (suc n) = split_slot_without_lock (split_times n)

slots_of : (n : ℕ) → (split_times n).next_slot_id_to_allocate ≡ n + 2
unfolding split_times split_slot_without_lock
slots_of zero = refl
slots_of (suc n) = omega (arith, slots_of n)

times-IsLinear : (n : ℕ) → n + 2 < 2 ^ 30 → IsLinear (split_times n)
unfolding split_times
times-IsLinear zero lt = record {
  mask = refl;
  higher_mask = refl;
  next = omega arith;
  slots = refl;
}
times-IsLinear (suc n) lt =
    split-IsLinear (split_times n) (times-IsLinear n (omega arith)) (omega (arith, slots_of n))

-- After any number of splits of a new index, as long as the slots stay below 2 ^ 30, the address of
-- every hash is an allocated primary slot; the next split leaves the address as it is when it is
-- not the slot that is split, and else moves it to the slot to which the split copies the entry,
-- which is the slot that is split or the one that it allocates.
pub split_times-IsAddressed :
    (n : ℕ) → n + 3 < 2 ^ 30 → (hash : ℕ) → IsAddressed (split_times n) hash
split_times-IsAddressed n lt =
    linear-IsAddressed (split_times n) (times-IsLinear n (omega arith)) (omega (arith, slots_of n))
