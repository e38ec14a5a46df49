-- ===== src/NodeStatistics/Sets.antt =====
-- The ordered sets of offsets and the ordered map from morsels to them.
use graphflowdb.Base.{
  ℕ, ◌+◌, ◌*◌, ◌≤◌, ◌<◌, ◌≡◌, refl, true, false, List, [], ◌∷◌, none, some, arith, ◌==◌,
  if◌then◌else◌, length, contains,
}
use graphflowdb.NodeStatistics.{
  default_vector_capacity, set_insert, last, drop_last, Morsels, find, map_insert, map_set,
}

-- Strictly ascending, in [lo, hi).
abbrev pub Ascending : ℕ → ℕ → List ℕ → Type 0
Ascending lo hi [] = Unit {0}
Ascending lo hi (x ∷ xs) = (lo ≤ x) × (x < hi) × Ascending (x + 1) hi xs

pub Ascending-weaken :
    (lo lo' hi : ℕ) (xs : List ℕ) → lo' ≤ lo → Ascending lo hi xs → Ascending lo' hi xs
Ascending-weaken lo lo' hi [] h a = tt
Ascending-weaken lo lo' hi (x ∷ xs) h a = (omega arith, a.1, a.2)

pub contains_bounds :
    (a lo hi : ℕ) (xs : List ℕ) → Ascending lo hi xs → contains a xs ≡ true → (lo ≤ a) × (a < hi)
contains_bounds a lo hi [] h c = cc
contains_bounds a lo hi (x ∷ xs) h c = ground (arith, contains_bounds a (x + 1) hi xs h.2)

pub contains-set_insert :
    (a b : ℕ) (xs : List ℕ)
    → contains b (set_insert a xs) ≡ (if a == b then true else contains b xs)
unfolding set_insert
contains-set_insert a b [] = ground arith
contains-set_insert a b (x ∷ xs) = ground (arith, contains-set_insert a b xs)

pub set_insert-Ascending :
    (a lo hi : ℕ) (xs : List ℕ)
    → lo ≤ a
    → a < hi
    → Ascending lo hi xs
    → Ascending lo hi (set_insert a xs)
unfolding set_insert
set_insert-Ascending a lo hi [] l u h = (l, u, tt)
set_insert-Ascending a lo hi (x ∷ xs) l u h =
    ground (arith, set_insert-Ascending a (x + 1) hi xs, Ascending-weaken (x + 1) (a + 1) hi xs)

pub set_insert_nonempty : (a : ℕ) (xs : List ℕ) → 0 < length (set_insert a xs)
unfolding set_insert
set_insert_nonempty a [] = omega arith
set_insert_nonempty a (x ∷ xs) = ground arith

pub contains-last : (x : ℕ) (xs : List ℕ) → contains (last x xs) (x ∷ xs) ≡ true
unfolding last
contains-last x [] = ground arith
contains-last x (y ∷ ys) = ground (arith, contains-last y ys)

pub drop_last-Ascending :
    (lo hi x : ℕ) (xs : List ℕ) → Ascending lo hi (x ∷ xs) → Ascending lo hi (drop_last x xs)
unfolding drop_last
drop_last-Ascending lo hi x [] h = tt
drop_last-Ascending lo hi x (y ∷ ys) h = (h.0, h.1, drop_last-Ascending (x + 1) hi y ys h.2)

last-le : (lo hi x : ℕ) (xs : List ℕ) → Ascending lo hi (x ∷ xs) → lo ≤ last x xs
last-le lo hi x xs h = (contains_bounds (last x xs) lo hi (x ∷ xs) h (contains-last x xs)).0

-- What is left of an ascending set without its last element.
pub contains-drop_last :
    (b lo hi x : ℕ) (xs : List ℕ)
    → Ascending lo hi (x ∷ xs)
    → contains b (drop_last x xs) ≡ (if last x xs == b then false else contains b (x ∷ xs))
unfolding last drop_last
contains-drop_last b lo hi x [] h = ground arith
contains-drop_last b lo hi x (y ∷ ys) h =
    ground (arith, contains-drop_last b (x + 1) hi y ys h.2, last-le (x + 1) hi y ys h.2)

-- Keys ascend from `lo`; a morsel's set is not empty and lies in the morsel.
abbrev pub Sorted : ℕ → Morsels → Type 0
Sorted lo [] = Unit {0}
Sorted lo ((k, v) ∷ m) =
    (lo ≤ k)
    × Ascending (k * default_vector_capacity)
        (k * default_vector_capacity + default_vector_capacity) v
    × (0 < length v)
    × Sorted (k + 1) m

pub Sorted-weaken : (lo lo' : ℕ) (m : Morsels) → lo' ≤ lo → Sorted lo m → Sorted lo' m
Sorted-weaken lo lo' [] h s = tt
Sorted-weaken lo lo' ((k, v) ∷ m) h s = (omega arith, s.1, s.2, s.3)

pub find_below : (k lo : ℕ) (m : Morsels) → Sorted lo m → k < lo → find k m ≡ none
unfolding find
find_below k lo [] s h = refl
find_below k lo ((j, v) ∷ m) s h = ground (arith, find_below k (j + 1) m s.3)

pub find-Ascending :
    (k lo : ℕ) (m : Morsels) (v : List ℕ)
    → Sorted lo m
    → find k m ≡ some v
    → Ascending
        (k * default_vector_capacity)
        (k * default_vector_capacity + default_vector_capacity)
        v
unfolding find
find-Ascending k lo [] v s e = cc
find-Ascending k lo ((j, w) ∷ m) v s e = ground (arith, find-Ascending k (j + 1) m v s.3)

pub find_nonempty :
    (k lo : ℕ) (m : Morsels) (v : List ℕ) → Sorted lo m → find k m ≡ some v → 0 < length v
unfolding find
find_nonempty k lo [] v s e = cc
find_nonempty k lo ((j, w) ∷ m) v s e = ground (arith, find_nonempty k (j + 1) m v s.3)

-- A bound on the elements is an upper end of the range.
pub Ascending-cap :
    (lo hi hi' : ℕ) (xs : List ℕ)
    → ((x : ℕ) → contains x xs ≡ true → x < hi')
    → Ascending lo hi xs
    → Ascending lo hi' xs
Ascending-cap lo hi hi' [] h a = tt
Ascending-cap lo hi hi' (x ∷ xs) h a =
    (a.0, ground (arith, h x), Ascending-cap (x + 1) hi hi' xs (λ y c. ground (arith, h y)) a.2)

pub find-map_set :
    (k j : ℕ) (v w : List ℕ) (m : Morsels)
    → find k m ≡ some w
    → find j (map_set k v m) ≡ (if k == j then some v else find j m)
unfolding find map_set
find-map_set k j v w [] e = cc
find-map_set k j v w ((i, u) ∷ m) e = ground (arith, find-map_set k j v w m)

pub find-map_insert :
    (k j : ℕ) (v : List ℕ) (m : Morsels)
    → find k m ≡ none
    → find j (map_insert k v m) ≡ (if k == j then some v else find j m)
unfolding find map_insert
find-map_insert k j v [] e = ground arith
find-map_insert k j v ((i, u) ∷ m) e = ground (arith, find-map_insert k j v m)

pub map_set-Sorted :
    (k lo : ℕ) (v : List ℕ) (m : Morsels)
    → Ascending
        (k * default_vector_capacity)
        (k * default_vector_capacity + default_vector_capacity)
        v
    → 0 < length v
    → Sorted lo m
    → Sorted lo (map_set k v m)
unfolding map_set
map_set-Sorted k lo v [] a n s = tt
map_set-Sorted k lo v ((i, u) ∷ m) a n s = ground (arith, map_set-Sorted k (i + 1) v m a n s.3)

-- A new key with its set, as insert and a write through find leave it.
pub map_set-map_insert-Sorted :
    (k lo : ℕ) (v : List ℕ) (m : Morsels)
    → lo ≤ k
    → Ascending
        (k * default_vector_capacity)
        (k * default_vector_capacity + default_vector_capacity)
        v
    → 0 < length v
    → find k m ≡ none
    → Sorted lo m
    → Sorted lo (map_set k v (map_insert k [] m))
unfolding map_set map_insert find
map_set-map_insert-Sorted k lo v [] h a n e s = ground arith
map_set-map_insert-Sorted k lo v ((i, u) ∷ m) h a n e s =
    ground (arith, map_set-map_insert-Sorted k (i + 1) v m, Sorted-weaken (i + 1) (k + 1) m)
