-- ===== src/Kernel/Paging/Position.antt =====
-- Where an iterator goes: `next` and `start` of src/kernel/page_table.cpp.
use jsix.Prelude.{
  ℕ, zero, suc, ◌+◌, ◌-◌, ◌*◌, ◌/◌, ◌%◌, ◌^◌, ◌≤◌, ◌<◌, ◌≡◌, ◌∙◌, ◌⊎◌, ◌==◌, inl, inr, refl, ap,
  subst, ◌||◌, false, Option, none, some, ltb, arith, Bool-cases,
}
use jsix.Kernel.Paging.{
  Iterator, put_index, iterator, canonical, start_bits, start, clear_below, carry, next, position,
  shift_of,
}

abbrev pub IsIndex : Iterator → Type 0
IsIndex it = (i : ℕ) → it i < 512

-- the number of pages that an entry of the level before maps
abbrev pub unit : ℕ → ℕ
unit l = 512 ^ (4 - l)

-- An iterator that stands at page `to`, or none when there is no such page.
abbrev pub Moved : ℕ → Option Iterator → Type 0
Moved to r =
    ((r ≡ none) × (512 ^ 4 ≤ to))
    ⊎ ((it : Iterator) × (r ≡ some it) × IsIndex it × (position it ≡ to))

put_index-IsIndex : (it : Iterator) (l n : ℕ) → IsIndex it → n < 512 → IsIndex (put_index it l n)
put_index-IsIndex it l n ok h i = ground (arith, ok i)

unit-suc : (l : ℕ) → l < 4 → unit l ≡ 512 * unit (suc l)
unit-suc zero h = refl
unit-suc (suc zero) h = refl
unit-suc (suc (suc zero)) h = refl
unit-suc (suc (suc (suc zero))) h = refl
unit-suc (suc (suc (suc (suc l)))) h = absurd (omega arith)

position-put_index :
    (it : Iterator) (l n : ℕ)
    → l < 4
    → position (put_index it l n) + it l * unit (suc l) ≡ position it + n * unit (suc l)
position-put_index it zero n h = omega arith
position-put_index it (suc zero) n h = omega arith
position-put_index it (suc (suc zero)) n h = omega arith
position-put_index it (suc (suc (suc zero))) n h = omega arith
position-put_index it (suc (suc (suc (suc l)))) n h = absurd (omega arith)

one_more : (n u : ℕ) → (n + 1) * u ≡ n * u + u
one_more n u = grind arith

wrapped :
    (it : Iterator) (l : ℕ)
    → l < 4
    → it l + 1 ≡ 512
    → position (put_index it l 0) + unit l ≡ position it + unit (suc l)
wrapped it l h e =
    let last : it l ≡ 511 = omega arith in
    omega (arith, position-put_index it l 0 h, unit-suc l h, ap (λ n. n * unit (suc l)) last)

stepped :
    (it : Iterator) (l : ℕ)
    → l < 4
    → position (put_index it l (it l + 1)) ≡ position it + unit (suc l)
stepped it l h = omega (arith, position-put_index it l (it l + 1) h, one_more (it l) (unit (suc l)))

carry-Moved :
    (it : Iterator) (l : ℕ) → l ≤ 4 → IsIndex it → Moved (position it + unit l) (carry it l)
unfolding carry
carry-Moved it zero h ok = inl (refl, omega arith)
carry-Moved it (suc l) h ok =
    let reset = put_index it l 0 in
    let ih =
      carry-Moved (put_index it l 0) l (omega arith) (put_index-IsIndex it l 0 ok (omega arith)) in
    elim (Bool-cases (it l + 1 == 512)) [
      | inl e ↦
          rw e (
            subst (λ n. Moved n (carry reset l)) (wrapped it l (omega arith) (ground (arith, e)))
              ih)
      | inr e ↦ rw e (
          inr (
            put_index it l (it l + 1),
            refl,
            put_index-IsIndex it l (it l + 1) ok (ground (arith, e, ok l)),
            stepped it l (omega arith),
          ))
    ]

clear_below-IsIndex : (it : Iterator) (l : ℕ) → IsIndex it → IsIndex (clear_below it l)
clear_below-IsIndex it l ok i = ground (arith, ok i)

position-clear_below :
    (it : Iterator) (l : ℕ)
    → IsIndex it
    → 0 < l
    → l ≤ 4
    → position (clear_below it l) ≡ position it / unit l * unit l
position-clear_below it zero ok pos h = absurd (omega arith)
position-clear_below it (suc zero) ok pos h = omega (arith, ok 0, ok 1, ok 2, ok 3)
position-clear_below it (suc (suc zero)) ok pos h = omega (arith, ok 0, ok 1, ok 2, ok 3)
position-clear_below it (suc (suc (suc zero))) ok pos h = omega (arith, ok 0, ok 1, ok 2, ok 3)
position-clear_below it (suc (suc (suc (suc zero)))) ok pos h =
    omega (arith, ok 0, ok 1, ok 2, ok 3)
position-clear_below it (suc (suc (suc (suc (suc l))))) ok pos h = absurd (omega arith)

-- `next` at a level from 1 to 4 goes to the first page after those that the entry of the level before
-- maps, unless they are the last pages of the address space, where it fails.
pub next-Moved :
    (it : Iterator) (l : ℕ)
    → IsIndex it
    → 0 < l
    → l ≤ 4
    → Moved (position it / unit l * unit l + unit l) (next it l)
unfolding next
next-Moved it l ok pos h = rw (levels l pos h) (
    subst (λ n. Moved (n + unit l) (carry (clear_below it l) l))
      (position-clear_below it l ok pos h)
      (carry-Moved (clear_below it l) l h (clear_below-IsIndex it l ok)))
  where
    levels : (l : ℕ) → 0 < l → l ≤ 4 → ((l == 0) || ltb 4 l) ≡ false
    levels l pos h = ground arith

-- Where an iterator of an address stands.
pub iterator-IsIndex : (virt : ℕ) → IsIndex (iterator virt)
iterator-IsIndex virt i = omega arith

pub position-iterator : (virt : ℕ) → position (iterator virt) ≡ virt / 4096 % 2 ^ 36
position-iterator virt = omega arith

-- An address that the processor accepts: bits 47 to 63 are equal.
abbrev pub IsCanonical : ℕ → Type 0
IsCanonical virt = (virt < 2 ^ 47) ⊎ ((2 ^ 64 - 2 ^ 47 ≤ virt) × (virt < 2 ^ 64))

start_bits-iterator :
    (virt l : ℕ)
    → l ≤ 3
    → start_bits (iterator virt) l ≡ virt % 2 ^ 48 / 2 ^ shift_of l * 2 ^ shift_of l
start_bits-iterator virt zero h = omega arith
start_bits-iterator virt (suc zero) h = omega arith
start_bits-iterator virt (suc (suc zero)) h = omega arith
start_bits-iterator virt (suc (suc (suc zero))) h = omega arith
start_bits-iterator virt (suc (suc (suc (suc l)))) h = absurd (omega arith)

canonical-start :
    (virt l : ℕ)
    → l ≤ 3
    → IsCanonical virt
    → canonical (virt % 2 ^ 48 / 2 ^ shift_of l * 2 ^ shift_of l)
      ≡ virt / 2 ^ shift_of l * 2 ^ shift_of l
canonical-start virt zero h c = ground (arith, c)
canonical-start virt (suc zero) h c = ground (arith, c)
canonical-start virt (suc (suc zero)) h c = ground (arith, c)
canonical-start virt (suc (suc (suc zero))) h c = ground (arith, c)
canonical-start virt (suc (suc (suc (suc l)))) h c = absurd (omega arith)

-- For a canonical address, an iterator made for it starts, at each level from 0 to 3, at the address
-- rounded down to what one entry of that level maps.
start-iterator :
    (virt l : ℕ)
    → l ≤ 3
    → IsCanonical virt
    → start (iterator virt) l ≡ virt / 2 ^ shift_of l * 2 ^ shift_of l
unfolding start
start-iterator virt l h c = ap canonical (start_bits-iterator virt l h) ∙ canonical-start virt l h c
