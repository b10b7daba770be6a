-- ===== src/Kernel/Heap/Orders.antt =====
-- address_order of src/kernel/heap_allocator.h, the order that an address is aligned to.
use jsix.Prelude.{
  ℕ, zero, suc, ◌+◌, ◌-◌, ◌/◌, ◌%◌, ◌^◌, ◌≤◌, ◌<◌, ◌==◌, ◌≡◌, ◌⊎◌, inl, inr, subst, true, arith,
  Bool-cases,
}
use jsix.Prelude.Powers.{aligned_even, aligned_next, aligned_less}
use jsix.Kernel.Heap.{aligned_order, address_order}

-- The order that an address is aligned to, up to `n`.
aligned_order-le : (n p : ℕ) → aligned_order n p ≤ n
unfolding aligned_order
aligned_order-le zero p = omega arith
aligned_order-le (suc n) p = ground (arith, aligned_order-le n p)

aligned_order-mod : (n p : ℕ) → p % 2 ^ aligned_order n p ≡ 0
unfolding aligned_order
aligned_order-mod zero p = omega arith
aligned_order-mod (suc n) p = elim (Bool-cases (p % 2 ^ suc n == 0)) [
  | inl e ↦ rw e (ground arith)
  | inr e ↦ rw e (aligned_order-mod n p)
]

at_most : (o n : ℕ) → o ≤ suc n → (o ≤ n) ⊎ (o ≡ suc n)
at_most o n h = ground arith

is_zero : (x : ℕ) → x ≡ 0 → (x == 0) ≡ true
is_zero x h = ground arith

-- It is the largest one.
aligned_order-max : (n p o : ℕ) → o ≤ n → p % 2 ^ o ≡ 0 → o ≤ aligned_order n p
unfolding aligned_order
aligned_order-max zero p o h a = omega arith
aligned_order-max (suc n) p o h a = elim (Bool-cases (p % 2 ^ suc n == 0)) [
  | inl e ↦ rw e (omega arith)
  | inr e ↦ elim (at_most o n h) [
    | inl less ↦ rw e (aligned_order-max n p o less a)
    | inr same ↦ cc (e, is_zero (p % 2 ^ suc n) (subst (λ x. p % 2 ^ x ≡ 0) same a))
  ]
]

pub address_order-low : (p : ℕ) → p % 32 ≡ 0 → 5 ≤ address_order p
unfolding address_order
address_order-low p h = aligned_order-max 22 p 5 (omega arith) h

pub address_order-le : (p : ℕ) → address_order p ≤ 22
unfolding address_order
address_order-le p = aligned_order-le 22 p

pub address_order-mod : (p : ℕ) → p % 2 ^ address_order p ≡ 0
unfolding address_order
address_order-mod p = aligned_order-mod 22 p

pub address_order-max : (p o : ℕ) → o ≤ 22 → p % 2 ^ o ≡ 0 → o ≤ address_order p
unfolding address_order
address_order-max p o h a = aligned_order-max 22 p o h a

-- Past the block of its order the end is aligned to a larger one.
pub address_order-rises :
    (p : ℕ) → address_order p < 22 → address_order p < address_order (p + 2 ^ address_order p)
address_order-rises p small =
    let c = address_order p in
    let a = address_order-mod p in
    let next : (p + 2 ^ c) % 2 ^ (c + 1) ≡ 0 = elim (Bool-cases (p / 2 ^ c % 2 == 0)) [
      | inl even ↦ absurd (
          omega (
            arith,
            address_order-max p (c + 1) (omega arith) (aligned_even p c a (ground (arith, even))),
          ))
      | inr odd ↦ aligned_next p c a (ground (arith, odd))
    ] in
    omega (arith, address_order-max (p + 2 ^ c) (c + 1) (omega arith) next)

pub at_least : (p o : ℕ) → o ≤ address_order p → p % 2 ^ o ≡ 0
at_least p o h =
    aligned_less p o (address_order p - o)
      (subst (λ x. p % 2 ^ x ≡ 0) (back o (address_order p) h) (address_order-mod p))
  where
    back : (o n : ℕ) → o ≤ n → n ≡ o + (n - o)
    back o n h = omega arith
