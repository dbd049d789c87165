-- ===== src/Example.antt =====
-- The example program src/examples/c37_118_Receiver/c37_118_Receiver.c.
pub mod Loop
pub mod Setup
pub mod Laws
pub mod Safe
use khorjin.Prelude.{ℕ, List, [], ◌∷◌, ◌++◌}
use khorjin.Prelude.Int.{pos}
use khorjin.Platform.{Platform}
use khorjin.Pal.{Pal, Call, returns, ◌>>=◌, access}
use khorjin.Print.{Line}
use khorjin.Print.Configuration.{print_configuration}
use khorjin.Print.Stream.{print_data_stream}
use khorjin.DataFrame.Values.{Temps}
use khorjin.Client.Session.{PmuConnectionData, connect}
use khorjin.Client.Stream.{
  Client, stop_transmission, start_transmission, get_configuration, get_data_stream,
}

-- The address is "130.237.53.177".
abbrev pub pmu_connection_data : PmuConnectionData
pmu_connection_data = record {
  ip_address_pmu_server = 49 ∷ 51 ∷ 48 ∷ 46 ∷ 50 ∷ 51 ∷ 55 ∷ 46 ∷ 53 ∷ 51 ∷ 46 ∷ 49 ∷ 55 ∷ 55 ∷ [];
  pmu_port_number = pos 33221;
  pmu_id_code = pos 221;
}

module _ (p : Platform) (pal : Pal) (rounds : ℕ) where
  -- `while (true)`, a round for each element, which is what the uninitialised variables of
  -- `parseDataFrame` hold in it; the end of the list is the end of what is looked at.
  unfoldable pub main_loop :
      List (Temps p.Float)
      → Client p pal
      → pal.World
      → Call (List (Line p.Float) × Client p pal × pal.World)
  main_loop [] self w = returns ([], self, w)
  main_loop (temps ∷ rest) self w = do
    (self, result, w) ← get_data_stream p pal rounds temps self w
    lines ← access (print_data_stream self)
    (more, self, w) ← main_loop rest self w
    returns (lines ++ more, self, w)

  -- The program up to some round of its loop, which nothing ends: the calls behind it are not reached.
  -- `send` and `receive` are what the two buffers from `malloc` hold.
  unfoldable pub main :
      List ℕ
      → List ℕ
      → List (Temps p.Float)
      → pal.World
      → Call (List (Line p.Float) × Client p pal × pal.World)
  main send receive schedule w = do
    (greeting, self, w) ← connect p pal rounds send receive pmu_connection_data 1000 w
    (self, w) ← stop_transmission p pal self w
    (self, result, w) ← get_configuration p pal rounds self w
    lines ← access (print_configuration self)
    (self, w) ← start_transmission p pal self w
    (more, self, w) ← main_loop schedule self w
    returns (greeting ++ (lines ++ more), self, w)
