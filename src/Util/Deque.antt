-- ===== src/Util/Deque.antt =====
-- src/libraries/util/include/util/deque.h: a deque in nodes of `chunk_size` items, here `n`. The
-- linked list of nodes is a list, front first; a node is a function of the index, and a new node
-- holds `blank`, the item that `memset` makes. `none` is a failed `assert`.
pub mod View
pub mod Ends
pub mod Pops
pub mod Refine
mod Tests
use jsix.Prelude.{
  ℕ, zero, suc, ◌+◌, ◌-◌, ◌==◌, Bool, true, false, ◌&&◌, ◌||◌, Option, none, some, List, [], ◌∷◌,
  ◌++◌, if◌then◌else◌,
}

abbrev pub Node {ℓ} : Type ℓ → Type ℓ
Node A = ℕ → A

pub record Deque {ℓ} (A : Type ℓ) : Type ℓ where
  pub first : ℕ
  pub next : ℕ
  pub nodes : List (Node A)

module _ {ℓ} {A : Type ℓ} where
  abbrev pub put_item : Node A → ℕ → A → Node A
  put_item f k x i = if i == k then x else f i

  abbrev pub is_nil : List (Node A) → Bool
  is_nil [] = true
  is_nil (f ∷ fs) = false

  abbrev pub is_single : List (Node A) → Bool
  is_single [] = false
  is_single (f ∷ fs) = is_nil fs

  -- a write to `m_list.front()`
  abbrev pub put_front : List (Node A) → ℕ → A → List (Node A)
  put_front [] k x = []
  put_front (f ∷ fs) k x = put_item f k x ∷ fs

  -- a write to `m_list.back()`
  abbrev pub put_back : List (Node A) → ℕ → A → List (Node A)
  put_back [] k x = []
  put_back (f ∷ []) k x = put_item f k x ∷ []
  put_back (f ∷ g ∷ fs) k x = f ∷ put_back (g ∷ fs) k x

  abbrev pub back_item : List (Node A) → ℕ → A → A
  back_item [] k x = x
  back_item (f ∷ []) k x = f k
  back_item (f ∷ g ∷ fs) k x = back_item (g ∷ fs) k x

  abbrev pub front_item : List (Node A) → ℕ → A → A
  front_item [] k x = x
  front_item (f ∷ fs) k x = f k

  abbrev pub drop_front : List (Node A) → List (Node A)
  drop_front [] = []
  drop_front (f ∷ fs) = fs

  abbrev pub drop_back : List (Node A) → List (Node A)
  drop_back [] = []
  drop_back (f ∷ []) = []
  drop_back (f ∷ g ∷ fs) = f ∷ drop_back (g ∷ fs)

module _ {ℓ} {A : Type ℓ} (n : ℕ) (blank : A) where
  unfoldable pub new_deque : Deque A
  new_deque = record { first = 0; next = n; nodes = [] }

  abbrev pub blank_node : Node A
  blank_node i = blank

  -- the new block that `push_front` needs at index 0
  abbrev pub room_front : Deque A → Deque A
  room_front d = if d.first == 0 then record d { first = n; nodes = blank_node ∷ d.nodes } else d

  unfoldable pub push_front : Deque A → A → Deque A
  push_front d x =
      let e = room_front d in
      record e { first = e.first - 1; nodes = put_front e.nodes (e.first - 1) x }

  abbrev pub room_back : Deque A → Deque A
  room_back d = if d.next == n then record d { next = 0; nodes = d.nodes ++ blank_node ∷ [] } else d

  unfoldable pub push_back : Deque A → A → Deque A
  push_back d x =
      let e = room_back d in record e { next = e.next + 1; nodes = put_back e.nodes e.next x }

  unfoldable pub empty : Deque A → Bool
  empty d = is_nil d.nodes || is_single d.nodes && d.first == d.next

  -- `m_first++` in the first of the nodes, which is deleted when it is used up
  abbrev pub leave_front : Deque A → Deque A
  leave_front d =
      let fs = drop_front d.nodes in
      if d.first + 1 == n
      then record { first = 0; next = if is_nil fs then n else d.next; nodes = fs }
      else record d { first = d.first + 1 }

  unfoldable pub pop_front : Deque A → Option (A × Deque A)
  unfolding empty
  pop_front d = if empty d then none else some (front_item d.nodes d.first blank, leave_front d)

  -- `--m_next` in the last of the nodes, which is deleted when it is used up
  abbrev pub leave_back : Deque A → Deque A
  leave_back d =
      let fs = drop_back d.nodes in
      if d.next - 1 == 0
      then record { first = if is_nil fs then 0 else d.first; next = n; nodes = fs }
      else record d { next = d.next - 1 }

  unfoldable pub pop_back : Deque A → Option (A × Deque A)
  unfolding empty
  pop_back d = if empty d then none else some (back_item d.nodes (d.next - 1) blank, leave_back d)

  unfoldable pub first_item : Deque A → Option A
  unfolding empty
  first_item d = if empty d then none else some (front_item d.nodes d.first blank)

  unfoldable pub last_item : Deque A → Option A
  unfolding empty
  last_item d = if empty d then none else some (back_item d.nodes (d.next - 1) blank)

  unfoldable pub clear : Deque A → Deque A
  clear d = record { first = 0; next = n; nodes = [] }
