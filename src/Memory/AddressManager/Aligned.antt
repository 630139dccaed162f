-- ===== src/Memory/AddressManager/Aligned.antt =====
-- `compute_aligned_size` rounds up to a multiple of an alignment that is a power of two.
use Prim.Native.Nat.{min, digits, bit_and, bit_and-bitwise}
use native.Mathlib.Nat.{
  two-pow-succ, zero-mod, add-mul, mod-lt, div-add-mod, mul-add-mod_self_left, mod-eq_of_lt,
  mul-mod_right, mul_assoc,
}
use serverless_lmcache.Common.{
  ℕ, zero, suc, ◌+◌, ◌-◌, ◌*◌, ◌/◌, ◌%◌, ◌^◌, ◌≤◌, ◌<◌, ◌≡◌, sym, ap, ◌∙◌, arith,
}
use serverless_lmcache.Memory.AddressManager.{compute_aligned_size}

pub pos_pow : (k : ℕ) → 0 < 2 ^ k
pos_pow zero = omega arith
pos_pow (suc k) = omega (arith, pos_pow k, two-pow-succ k)

-- The remainder for twice a number, from the remainder of the half.
mod_double : (p x : ℕ) → 0 < p → x % (p + p) ≡ x / 2 % p * 2 + x % 2
mod_double p x h =
    let y = x / 2 in
    let q = y / p in
    let r = y % p * 2 + x % 2 in
    let cut : x ≡ (p + p) * q + r = omega (arith, div-add-mod y p, add-mul p p q) in
    ap (λ x. x % (p + p)) cut
    ∙ mul-add-mod_self_left (p + p) q r
    ∙ mod-eq_of_lt (let l = mod-lt y h in omega arith)

digits_mask : (n k x : ℕ) → x ≤ n → digits (λ b. zero) min n x (2 ^ k - 1) ≡ x % 2 ^ k
digits_mask zero k zero h = sym (zero-mod (2 ^ k))
digits_mask zero k (suc x) h = absurd (omega arith)
digits_mask (suc n) k zero h = sym (zero-mod (2 ^ k))
digits_mask (suc n) zero (suc x) h =
    let rest = digits_mask n 0 (suc x / 2) (omega arith) in omega arith
digits_mask (suc n) (suc k) (suc x) h =
    let rest = digits_mask n k (suc x / 2) (omega arith) in
    let p = pos_pow k in
    let t = two-pow-succ k in
    let half : (2 ^ suc k - 1) / 2 ≡ 2 ^ k - 1 = omega arith in
    let step = ap (digits (λ b. zero) min n (suc x / 2)) half ∙ rest in
    let d = ap (λ q. suc x % q) t ∙ mod_double (2 ^ k) (suc x) p in omega arith

pub bit_and_mask : (k x : ℕ) → bit_and x (2 ^ k - 1) ≡ x % 2 ^ k
bit_and_mask k x = bit_and-bitwise x (2 ^ k - 1) ∙ digits_mask x k x (omega arith)

-- With an alignment that is a power of two, the aligned size is a multiple of the alignment, not
-- below the size, and less than one alignment above it.
pub compute_aligned_size_rounds_up :
    (k n : ℕ)
    → (compute_aligned_size (2 ^ k) n % 2 ^ k ≡ 0)
      × (n ≤ compute_aligned_size (2 ^ k) n)
      × (compute_aligned_size (2 ^ k) n < n + 2 ^ k)
unfolding compute_aligned_size
compute_aligned_size_rounds_up k n =
    let p = pos_pow k in
    let x = n + 2 ^ k - 1 in
    let m = bit_and_mask k x in
    let l = mod-lt x p in
    let d = div-add-mod x (2 ^ k) in
    let eq : x - bit_and x (2 ^ k - 1) ≡ 2 ^ k * (x / 2 ^ k) = omega arith in
    (ap (λ y. y % 2 ^ k) eq ∙ mul-mod_right (2 ^ k) (x / 2 ^ k), omega arith, omega arith)

-- A multiple of the alignment is its own aligned size.
pub compute_aligned_size_multiple : (k c : ℕ) → compute_aligned_size (2 ^ k) (2 ^ k * c) ≡ 2 ^ k * c
unfolding compute_aligned_size
compute_aligned_size_multiple k c =
    let p = pos_pow k in
    let m = bit_and_mask k (2 ^ k * c + 2 ^ k - 1) in
    let eq : 2 ^ k * c + 2 ^ k - 1 ≡ 2 ^ k * c + (2 ^ k - 1) = omega arith in
    let r =
      ap (λ x. x % 2 ^ k) eq
      ∙ mul-add-mod_self_left (2 ^ k) c (2 ^ k - 1)
      ∙ mod-eq_of_lt (omega arith) in
    omega arith

-- A number of regions of one aligned size takes up just that much.
pub compute_aligned_size_again :
    (k raw n : ℕ)
    → let u = compute_aligned_size (2 ^ k) raw in compute_aligned_size (2 ^ k) (u * n) ≡ u * n
compute_aligned_size_again k raw n =
    let u = compute_aligned_size (2 ^ k) raw in
    let whole = (compute_aligned_size_rounds_up k raw).0 in
    let eq : u ≡ 2 ^ k * (u / 2 ^ k) = omega (arith, div-add-mod u (2 ^ k)) in
    let eq' : u * n ≡ 2 ^ k * (u / 2 ^ k * n) =
      ap (λ x. x * n) eq ∙ mul_assoc (2 ^ k) (u / 2 ^ k) n in
    ap (compute_aligned_size (2 ^ k)) eq'
    ∙ compute_aligned_size_multiple k (u / 2 ^ k * n)
    ∙ sym eq'
