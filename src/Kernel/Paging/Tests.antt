-- ===== src/Kernel/Paging/Tests.antt =====
-- Page tables as a function, with two pages of an area present.
use jsix.Prelude.{
  ℕ, ◌≡◌, ◌==◌, true, false, Option, some, none, List, [], ◌∷◌, refl, arith, if◌then◌else◌,
  if_eq_self, if_eq_other,
}
use jsix.Kernel.VmSpace.{VmSpace, find_vma}
use jsix.Kernel.Paging.{Tables, Run, page_in, clear}
use jsix.Kernel.Paging.PageIn.{IsMapped, page_in-IsMapped}
use jsix.Kernel.Paging.Clear.{IsClear, AreWords, clear-IsClear}
use jsix.Kernel.Paging.Lock.{IsFreedOnce, lock-clear}

abbrev tables : Tables
tables = record {
  State = ℕ → ℕ;
  entry = λ t n. t n;
  set = λ t n e m. if m == n then e else t m;
  entry-set_same = λ t n e. if_eq_self n e (t n);
  entry-set_other = λ t n m e h. if_eq_other m n e (t m) h;
}

abbrev space : VmSpace
space = record { name = 1; kernel = false; areas = record { base = 0x100_0000; area = 7 } ∷ [] }

space-area : find_vma space.areas 7 ≡ some 0x100_0000
unfolding find_vma
space-area = refl

abbrev two_present : ℕ → ℕ
two_present n = if n == 0x1000 then 0x5007 else (if n == 0x1002 then 0x6007 else 0)

two_present-AreWords : AreWords tables two_present
two_present-AreWords n = ground arith

abbrev runs_of : Option ((ℕ → ℕ) × List Run) → List Run
runs_of none = []
runs_of (some (t, runs)) = runs

-- The frames of the two pages are next to each other and are freed together.
two_present-clear :
    runs_of (clear tables space 7 0 3 true two_present) ≡ record { first = 0x5000; count = 2 } ∷ []
unfolding clear find_vma
two_present-clear = refl

page_in-IsMapped_example :
    IsMapped tables false true false 0x1001 2 0x9000 two_present
      (page_in tables space true false 7 0x1000 0x9000 2 two_present)
page_in-IsMapped_example =
    page_in-IsMapped tables space true false 7 0x100_0000 0x1000 0x9000 2 two_present space-area
      refl

clear-IsClear_example :
    IsClear tables 0x1000 3 two_present true (clear tables space 7 0 3 true two_present)
clear-IsClear_example =
    clear-IsClear tables space 7 0x100_0000 0 3 true two_present space-area two_present-AreWords

lock-clear_example : IsFreedOnce tables space 7 0 3 0x1000 two_present
lock-clear_example =
    lock-clear tables space 7 0x100_0000 0 3 two_present space-area two_present-AreWords
      (omega arith)
