-- ===== src/Common/Bags.antt =====
-- Bags of numbers: lists of which only the counts matter.
use mathlib.Core.Quot
use mathlib.Core.Quot.{Quot}
use mathlib.Core.Path.{◌≡◌, fun_ext}
use mathlib.Core.List.{List}
use Prim.Native.Nat.{ℕ}
use e3controller.Common.Lists.{count}

-- How often each number stands in a list.
abbrev counts : List ℕ → ℕ → ℕ
counts xs b = count b xs

-- Lists with the same counts are one bag.
abbrev pub Bag : Type 0
Bag = Quot (λ (xs ys : List ℕ). counts xs ≡ counts ys)

abbrev pub bag : List ℕ → Bag
bag xs = Quot.mk xs

pub bag_ext : {xs ys : List ℕ} → ((b : ℕ) → count b xs ≡ count b ys) → bag xs ≡ bag ys
bag_ext same = Quot.sound (fun_ext same)
