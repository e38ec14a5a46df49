-- ===== src/HashIndex/Masks.antt =====
-- What the masks of src/storage/index/in_mem_hash_index.cpp keep of a hash.
use graphflowdb.Base.{
  ℕ, zero, suc, ◌+◌, ◌-◌, ◌*◌, ◌/◌, ◌%◌, ◌^◌, ◌≤◌, ◌<◌, ◌≡◌, refl, ap, ◌∙◌, ◌⊎◌, inl, inr, arith,
  ℕ-cases,
}
use Prim.Native.Nat.{min, digits, bit_and, bit_and-bitwise}
use native.Mathlib.Nat.{mod-eq_of_lt, add-mul-mod_self_left, div-add-mod, pow-suc}

abbrev and_digits : ℕ → ℕ → ℕ → ℕ
and_digits fuel a b = digits (λ y. 0) min fuel a b

-- Any fuel that reaches the last digit gives the same number.
and_digits-enough : (m n a b : ℕ) → a ≤ m → a ≤ n → and_digits m a b ≡ and_digits n a b
and_digits-enough zero zero a b le le' = refl
and_digits-enough zero (suc n) zero b le le' = refl
and_digits-enough zero (suc n) (suc a) b le le' = absurd (omega arith)
and_digits-enough (suc m) zero zero b le le' = refl
and_digits-enough (suc m) zero (suc a) b le le' = absurd (omega arith)
and_digits-enough (suc m) (suc n) zero b le le' = refl
and_digits-enough (suc m) (suc n) (suc a) b le le' =
    omega (arith, and_digits-enough m n (suc a / 2) (b / 2) (omega arith) (omega arith))

bit_and_halves : (a b : ℕ) → bit_and a b ≡ bit_and (a / 2) (b / 2) * 2 + min (a % 2) (b % 2)
bit_and_halves zero b = omega (arith, bit_and-bitwise 0 b, bit_and-bitwise 0 (b / 2))
bit_and_halves (suc a) b = omega (
  arith,
  bit_and-bitwise (suc a) b,
  bit_and-bitwise (suc a / 2) (b / 2),
  and_digits-enough a (suc a / 2) (suc a / 2) (b / 2) (omega arith) (omega arith),
)

bit_and_nothing : (bound a : ℕ) → a ≤ bound → bit_and a 0 ≡ 0
bit_and_nothing bound zero le = refl
bit_and_nothing zero (suc a) le = absurd (omega arith)
bit_and_nothing (suc bound) (suc a) le =
    omega (arith, bit_and_halves (suc a) 0, bit_and_nothing bound (suc a / 2) (omega arith))

pub pow_positive : (n : ℕ) → 0 < 2 ^ n
pow_positive zero = omega arith
pow_positive (suc n) = omega (arith, pow_positive n, pow-suc 2 n)

mod_unique : (h d k r : ℕ) → r < d → h ≡ r + d * k → h % d ≡ r
mod_unique h d k r lt e = ap (λ t. t % d) e ∙ add-mul-mod_self_left r d k ∙ mod-eq_of_lt lt

times_div : (h m b : ℕ) → h / m % 2 ≡ b → h ≡ h % m + m * b + 2 * m * (h / m / 2)
times_div h m b e =
    let count : h / m ≡ b + 2 * (h / m / 2) = omega (arith, e) in
    grind (arith, div-add-mod h m, ap (λ t. m * t) count)

pub pow_double : (n : ℕ) → 2 ^ suc n ≡ 2 * 2 ^ n
pow_double n = omega (arith, pow-suc 2 n)

-- One more bit of a hash leaves the slot or adds the number of slots.
pub mod_double : (h m : ℕ) → 0 < m → (h % (2 * m) ≡ h % m) ⊎ (h % (2 * m) ≡ h % m + m)
mod_double h m lt = elim (ℕ-cases (h / m % 2) 0) [
  | inl e ↦
      inl
        (mod_unique h (2 * m) (h / m / 2) (h % m) (omega arith) (omega (arith, times_div h m 0 e)))
  | inr e ↦ inr (
      mod_unique h (2 * m) (h / m / 2) (h % m + m) (omega arith)
        (omega (arith, times_div h m 1 (omega arith))))
]

mod_halves : (h m : ℕ) → 0 < m → h % (2 * m) ≡ h / 2 % m * 2 + h % 2
mod_halves h m lt =
    mod_unique h (2 * m) (h / 2 / m) (h / 2 % m * 2 + h % 2) (omega arith)
      (grind (arith, div-add-mod (h / 2) m))

pub bit_and_ones : (n h : ℕ) → bit_and h (2 ^ n - 1) ≡ h % 2 ^ n
bit_and_ones zero h = omega (arith, bit_and_nothing h h (omega arith))
bit_and_ones (suc n) h =
    let ones : (2 ^ suc n - 1) / 2 ≡ 2 ^ n - 1 = omega (arith, pow_positive n, pow-suc 2 n) in
    omega (
      arith,
      bit_and_halves h (2 ^ suc n - 1),
      ap (λ t. bit_and (h / 2) t) ones,
      bit_and_ones n (h / 2),
      mod_halves h (2 ^ n) (pow_positive n),
      ap (λ t. h % t) (pow_double n),
      pow_positive n,
      pow-suc 2 n,
    )
