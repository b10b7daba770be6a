-- ===== src/Util/Vector.antt =====
-- src/libraries/util/include/util/vector.h with 32-bit counts. The elements are a function of the
-- index; the allocator moves those that there are and is otherwise left out, as are constructors and
-- destructors of elements. The top bit of `m_capacity` marks static storage. `none` is a failed
-- `assert`.
pub mod Shift
pub mod Array
pub mod Sorted
mod Tests
use jsix.Prelude.{
  ℕ, zero, suc, ◌+◌, ◌-◌, ◌*◌, ◌/◌, ◌%◌, ◌^◌, ◌==◌, Bool, true, false, not, Option, none, some, ltb,
  leb, if◌then◌else◌, u32_mod,
}
use jsix.Util.Log.{log2}

pub record Vector {ℓ} (A : Type ℓ) : Type ℓ where
  pub size : ℕ
  pub capacity : ℕ
  pub elements : ℕ → A

abbrev pub min_capacity : ℕ
min_capacity = 4

-- `m_capacity & cap_mask`
abbrev pub unmarked : ℕ → ℕ
unmarked c = c % 2 ^ 31

-- the capacity for a size: a power of 2, at least `min_capacity`
abbrev pub new_capacity : ℕ → ℕ
new_capacity n = let c = 2 ^ log2 n % u32_mod in if ltb c min_capacity then min_capacity else c

module _ {ℓ} {A : Type ℓ} where
  abbrev pub put_element : (ℕ → A) → ℕ → A → ℕ → A
  put_element f k x i = if i == k then x else f i

  abbrev pub capacity : Vector A → ℕ
  capacity v = unmarked v.capacity

  -- Elements past the new capacity are removed; the others are moved.
  abbrev pub set_capacity : Vector A → ℕ → Vector A
  set_capacity v c = record v { size = if ltb c v.size then c else v.size; capacity = c }

  unfoldable pub ensure_capacity : Vector A → ℕ → Vector A
  ensure_capacity v n = if leb n (capacity v) then v else set_capacity v (new_capacity n)

  unfoldable pub append : Vector A → A → Vector A
  unfolding ensure_capacity
  append v x =
      let w = ensure_capacity v ((v.size + 1) % u32_mod) in
      record w { size = (w.size + 1) % u32_mod; elements = put_element w.elements w.size x }

  -- `for (j = i + k; j > i; --j) m_elements[j] = m_elements[j-1]`
  unfoldable pub shift_up : (ℕ → A) → ℕ → ℕ → ℕ → A
  shift_up f i zero = f
  shift_up f i (suc k) = shift_up (put_element f (i + suc k) (f (i + k))) i k

  unfoldable pub insert : Vector A → ℕ → A → Vector A
  unfolding append ensure_capacity shift_up
  insert v i x =
      let w = ensure_capacity v ((v.size + 1) % u32_mod) in
      if leb v.size i then append v x else record w {
        size = (w.size + 1) % u32_mod;
        elements = put_element (shift_up w.elements i (w.size - i)) i x;
      }

  -- `for (; i < m_size - n; ++i) m_elements[i] = m_elements[i+n]`, `k` rounds of it
  unfoldable pub shift_down : (ℕ → A) → ℕ → ℕ → ℕ → ℕ → A
  shift_down f i n zero = f
  shift_down f i n (suc k) = shift_down (put_element f i (f (i + n))) (i + 1) n k

  -- With fewer than `n` elements from `i` on, the loop that destroys them returns.
  unfoldable pub remove_at : Vector A → ℕ → ℕ → Vector A
  unfolding shift_down
  remove_at v i n =
      if ltb v.size (i + n)
      then v
      else record v { size = v.size - n; elements = shift_down v.elements i n (v.size - n - i) }

  unfoldable pub remove_last : Vector A → Option (Vector A)
  remove_last v = if v.size == 0 then none else some (record v { size = v.size - 1 })

  unfoldable pub remove_front : Vector A → Option (Vector A)
  unfolding remove_at
  remove_front v = if v.size == 0 then none else some (remove_at v 0 1)

  unfoldable pub remove_swap_at : Vector A → ℕ → Vector A
  remove_swap_at v i = if leb v.size i then v else record v {
    size = v.size - 1;
    elements =
        if ltb i (v.size - 1)
        then put_element v.elements i (v.elements (v.size - 1))
        else v.elements;
  }

  unfoldable pub pop : Vector A → Option (A × Vector A)
  pop v =
      if v.size == 0 then none else some (v.elements (v.size - 1), record v { size = v.size - 1 })

  unfoldable pub pop_front : Vector A → Option (A × Vector A)
  unfolding remove_at
  pop_front v = if v.size == 0 then none else some (v.elements 0, remove_at v 0 1)

-- `same` is `==` of the elements.
module _ {ℓ} {A : Type ℓ} (same : A → A → Bool) where
  -- the first index from `i` on with this element, among `k`
  unfoldable pub index_of : (ℕ → A) → A → ℕ → ℕ → Option ℕ
  index_of f x i zero = none
  index_of f x i (suc k) =
      let rest = index_of f x (i + 1) k in if same (f i) x then some i else rest

  abbrev pub remove_swap_found : Vector A → Option ℕ → Vector A
  remove_swap_found v none = v
  remove_swap_found v (some i) = remove_swap_at v i

  unfoldable pub remove_swap : Vector A → A → Vector A
  unfolding index_of remove_swap_at
  remove_swap v x = remove_swap_found v (index_of v.elements x 0 v.size)

-- `before x y` is `x.compare(y) < 0`.
module _ {ℓ} {A : Type ℓ} (before : A → A → Bool) where
  -- the loop of `sorted_insert`, on fuel: each round makes the range smaller
  unfoldable pub search_sorted : ℕ → (ℕ → A) → A → ℕ → ℕ → ℕ
  search_sorted zero f x start end = start
  search_sorted (suc fuel) f x start end =
      let m = start + (end - start) / 2 in
      let low = search_sorted fuel f x start m in
      let high = search_sorted fuel f x (m + 1) end in
      if leb end start then start else (if before x (f m) then low else high)

  unfoldable pub sorted_insert : Vector A → A → ℕ × Vector A
  unfolding search_sorted insert
  sorted_insert v x =
      let start = search_sorted v.size v.elements x 0 v.size in (start, insert v start x)
