-- ===== src/Print.antt =====
-- `c37_118client_printConfiguration` and `c37_118client_printDataStream`: the calls of `printf`, in order.
pub mod Configuration
pub mod Stream
pub mod Laws
pub mod Printed
pub mod ConfigurationPrinted
pub mod StreamPrinted
pub mod Totals
use khorjin.Prelude.{
  ℕ, zero, suc, ◌+◌, Bool, Option, none, some, List, [], ◌∷◌, ◌++◌, if◌then◌else◌,
}
use Prim.Native.String.{String}
use khorjin.Types.{Time}

-- An argument of `printf`.
pub data Arg (F : Type 0) : Type 0 where
  uint : ℕ → Arg F
  float : F → Arg F
  chars : List ℕ → Arg F
  text : String → Arg F

pub record Line (F : Type 0) : Type 0 where
  pub format : String
  pub args : List (Arg F)

-- The monad of the two functions: an access outside an array, or the lines printed.
infixl 5 ◌>>◌
unfoldable pub ◌>>◌ :
    {F : Type 0} → Option (List (Line F)) → Option (List (Line F)) → Option (List (Line F))
none >> m = none
some xs >> none = none
some xs >> some ys = some (xs ++ ys)

module _ {F : Type 0} where
  abbrev pub printf : String → List (Arg F) → Option (List (Line F))
  printf format args = some (record { format = format; args = args } ∷ [])

  -- A format without arguments.
  abbrev pub puts : String → Option (List (Line F))
  puts format = printf format []

  abbrev pub bool_text : String → String → Bool → Arg F
  bool_text yes_text no_text b = text (if b then yes_text else no_text)

  -- `for (j = 0; j < n; j++)` over an array: the printer gets `j` and the element.
  unfoldable pub print_each {ℓ} :
      {A : Type ℓ} → (ℕ → A → Option (List (Line F))) → ℕ → ℕ → List A → Option (List (Line F))
  print_each printer zero j xs = some []
  print_each printer (suc rounds) j [] = none
  print_each printer (suc rounds) j (x ∷ xs) = printer j x >> print_each printer rounds (j + 1) xs

  -- The date line, through the pointer `parsedTime`.
  unfoldable pub print_date : String → Time F → Option (List (Line F))
  print_date format t = elim t.parsed_time [
    | none ↦ none
    | some c ↦ printf format (
        uint c.year
        ∷ uint c.month
        ∷ uint c.day
        ∷ uint c.hour
        ∷ uint c.minute
        ∷ float c.sec_plus_fraction
        ∷ [])
  ]
