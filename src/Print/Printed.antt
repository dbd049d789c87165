-- ===== src/Print/Printed.antt =====
-- When the print functions leave no array.
use khorjin.Prelude.{
  ℕ, zero, suc, ◌+◌, ◌≤◌, ◌≡◌, refl, arith, Option, none, some, List, [], ◌∷◌, ◌++◌, All, length,
}
use Prim.Native.String.{String}
use khorjin.Platform.{ParsedTime}
use khorjin.Pal.{returns, access}
use khorjin.Types.{Time}
use khorjin.Print.{Arg, Line, ◌>>◌, printf, print_each, print_date}

-- Lines are printed.
pub data Printed {F : Type 0} : Option (List (Line F)) → Type 0 where
  printed : (lines : List (Line F)) → Printed (some lines)

pub any_element : {A : Type 0} (xs : List A) → All (λ x. Unit {0}) xs
any_element [] = tt
any_element (x ∷ xs) = (tt, any_element xs)

module _ {F : Type 0} where
  pub Printed->> : {m k : Option (List (Line F))} → Printed m → Printed k → Printed (m >> k)
  unfolding ◌>>◌
  Printed->> (printed xs) (printed ys) = printed (xs ++ ys)

  pub Printed-printf : (format : String) (args : List (Arg F)) → Printed (printf format args)
  Printed-printf format args = printed _

  abbrev pub lines_of : Option (List (Line F)) → List (Line F)
  lines_of none = []
  lines_of (some lines) = lines

  pub Printed-access : {m : Option (List (Line F))} → Printed m → access m ≡ returns (lines_of m)
  Printed-access (printed lines) = refl

  pub ruleset print_rules = (Printed->>, Printed-printf, printed)

  -- Every element up to the count can be printed.
  pub Printed-each :
      {A : Type 0} {P : A → Type 0} (printer : ℕ → A → Option (List (Line F))) (n j : ℕ)
      (xs : List A)
      → ((i : ℕ) (x : A) → P x → Printed (printer i x))
      → n ≤ length xs
      → All P xs
      → Printed (print_each printer n j xs)
  unfolding print_each
  Printed-each printer zero j xs f h a = printed []
  Printed-each printer (suc n) j [] f h a = absurd (omega arith)
  Printed-each printer (suc n) j (x ∷ xs) f h a =
      Printed->> (f j x a.0) (Printed-each printer n (j + 1) xs f (omega arith) a.1)

  pub print_date-Printed :
      (format : String) (t : Time F) (c : ParsedTime F)
      → t.parsed_time ≡ some c
      → Printed (print_date format t)
  unfolding print_date
  print_date-Printed format t c e = rw e (printed _)
