-- ===== src/Kernel/VmSpace.antt =====
-- The areas of an address space: `add`, `remove`, `get`, `find_vma` and `can_resize` of
-- src/kernel/vm_space.cpp, over the size, the spaces and the handles of an `obj::vm_area`
-- (src/kernel/objects/vm_area.cpp). Areas and spaces are named by numbers, and 0 is no area. The
-- vector `m_areas` is a list. Page tables are not modelled, so that `remove_area` has no `clear`.
pub mod Disjoint
pub mod Get
pub mod Keep
mod Tests
use jsix.Prelude.{
  ℕ, zero, suc, ◌+◌, ◌-◌, ◌*◌, ◌%◌, ◌^◌, ◌==◌, Bool, true, false, not, ◌&&◌, ◌||◌, Option, none,
  some, List, [], ◌∷◌, ◌++◌, ltb, leb, if◌then◌else◌, add64,
}
use jsix.Prelude.Occur.{count, remove_swap}

-- The part of `obj::vm_area` and `obj::kobject` that spaces use.
pub record Vma : Type 0 where
  pub size : ℕ
  pub spaces : List ℕ
  pub handle_count : ℕ
  pub deleted : Bool

abbrev pub Vmas : Type 0
Vmas = ℕ → Vma

abbrev pub put_vma : Vmas → ℕ → Vma → Vmas
put_vma vs v a i = if i == v then a else vs i

abbrev pub is_nil : List ℕ → Bool
is_nil [] = true
is_nil (x ∷ xs) = false

-- `vm_area::add_to`
unfoldable pub add_to : Vma → ℕ → Vma
add_to a space =
    if count space a.spaces == 0 then record a { spaces = a.spaces ++ space ∷ [] } else a

-- `vm_area::remove_from`
unfoldable pub remove_from : Vma → ℕ → Vma
remove_from a space =
    let left = remove_swap space a.spaces in
    record a { spaces = left; deleted = a.deleted || is_nil left && a.handle_count == 0 }

-- `vm_area::on_no_handles`
abbrev pub on_no_handles : Vma → Vma
on_no_handles a = record a { deleted = a.deleted || is_nil a.spaces }

unfoldable pub handle_retain : Vma → Vma
handle_retain a = record a { handle_count = (a.handle_count + 1) % 2 ^ 16 }

unfoldable pub handle_release : Vma → Vma
handle_release a =
    let left = record a { handle_count = (a.handle_count + (2 ^ 16 - 1)) % 2 ^ 16 } in
    if left.handle_count == 0 then on_no_handles left else left

-- `vm_space::area`
pub record Area : Type 0 where
  pub base : ℕ
  pub area : ℕ

-- `vm_space`
pub record VmSpace : Type 0 where
  pub name : ℕ
  pub kernel : Bool
  pub areas : List Area

abbrev pub min_auto_address : ℕ
min_auto_address = 16 * 1024 * 1024

abbrev pub end_of : Vmas → Area → ℕ
end_of vs a = add64 a.base (vs a.area).size

-- the loop of `add`; `none` is its `return 0`
unfoldable pub find_base : Vmas → ℕ → Bool → List Area → ℕ → Option ℕ
find_base vs size exact [] base = some base
find_base vs size exact (cur ∷ rest) base =
    let past = leb (end_of vs cur) base in
    let later = find_base vs size exact rest (if past then base else end_of vs cur) in
    if past
    then later
    else (if leb (add64 base size) cur.base then some base else (if exact then none else later))

-- `m_areas.sorted_insert` by `area::compare`: after the areas with no higher base
unfoldable pub sorted_insert : List Area → Area → List Area
sorted_insert [] a = a ∷ []
sorted_insert (cur ∷ rest) a =
    if ltb a.base cur.base then a ∷ cur ∷ rest else cur ∷ sorted_insert rest a

abbrev pub add_at : VmSpace → Vmas → ℕ → Option ℕ → ℕ × VmSpace × Vmas
add_at s vs v none = (0, s, vs)
add_at s vs v (some base) = (
  base,
  record s { areas = sorted_insert s.areas (record { base = base; area = v }) },
  put_vma vs v (handle_retain (add_to (vs v) s.name)),
)

unfoldable pub add : VmSpace → Vmas → ℕ → ℕ → Bool → ℕ × VmSpace × Vmas
unfolding find_base sorted_insert add_to handle_retain
add s vs base v exact =
    let start = if base == 0 then min_auto_address else base in
    add_at s vs v (find_base vs (vs v).size exact s.areas start)

-- `m_areas.remove(a)` for the first area that holds `v`
unfoldable pub remove_first : List Area → ℕ → List Area
remove_first [] v = []
remove_first (cur ∷ rest) v = if cur.area == v then rest else cur ∷ remove_first rest v

abbrev pub holds : List Area → ℕ → Bool
holds [] v = false
holds (cur ∷ rest) v = cur.area == v || holds rest v

unfoldable pub remove : VmSpace → Vmas → ℕ → Bool × VmSpace × Vmas
unfolding remove_first remove_from handle_release
remove s vs v =
    if holds s.areas v
    then (
      true,
      record s { areas = remove_first s.areas v },
      put_vma vs v (handle_release (remove_from (vs v) s.name)),
    )
    else (false, s, vs)

unfoldable pub get_area : Vmas → List Area → ℕ → Option Area
get_area vs [] addr = none
get_area vs (cur ∷ rest) addr =
    if leb cur.base addr && ltb addr (end_of vs cur) then some cur else get_area vs rest addr

-- `get`: the area of an address and its base
unfoldable pub get : VmSpace → Vmas → ℕ → Option Area
unfolding get_area
get s vs addr = get_area vs s.areas addr

unfoldable pub find_vma : List Area → ℕ → Option ℕ
find_vma [] v = none
find_vma (cur ∷ rest) v = if cur.area == v then some cur.base else find_vma rest v

abbrev pub space_end : Bool → ℕ
space_end kernel = if kernel then 2 ^ 64 - 1 else 0x7fffffffffff

-- The loop of `can_resize`, from the area `prev` on, and its end. The last pair of areas is not
-- looked at.
unfoldable pub can_resize_from : Bool → ℕ → ℕ → ℕ → List Area → Bool
can_resize_from kernel v size base [] = leb (add64 base size) (space_end kernel)
can_resize_from kernel v size base (prev ∷ []) = leb (add64 base size) (space_end kernel)
can_resize_from kernel v size base (prev ∷ next ∷ []) = leb (add64 base size) (space_end kernel)
can_resize_from kernel v size base (prev ∷ next ∷ last ∷ rest) =
    let others =
      can_resize_from kernel v size (if prev.area == v then prev.base else base)
        (next ∷ last ∷ rest) in
    if prev.area == v && ltb next.base (add64 prev.base size) then false else others

-- `none` for a space without areas, where the loop runs off the vector
unfoldable pub can_resize : VmSpace → ℕ → ℕ → Option Bool
unfolding can_resize_from
can_resize s v size = elim s.areas [
  | [] ↦ none
  | ◌∷◌ a xs ↦ some (can_resize_from s.kernel v size 0 (a ∷ xs))
]
