-- ===== src/Example/Loop.antt =====
-- The loop of `main` of the example against a server that sends data frames of the standard.
use khorjin.Prelude.{ℕ, ◌+◌, ◌≡◌, ◌<◌, refl, List, [], ◌∷◌, ◌++◌, IsU16, IsBytes, length}
use khorjin.Prelude.Int.{ℤ}
use khorjin.Prelude.Int
use khorjin.Platform.{Platform}
use khorjin.Pal.{Pal, returns}
use khorjin.Types.{C37118Client}
use khorjin.Wire.Crc.Check.{seal}
use khorjin.Command.{cleared}
use khorjin.DataFrame.Values.{Temps}
use khorjin.DataFrame.Whole.{DataFrame, IsDataFrame, data_body, measured}
use khorjin.Print.{Line}
use khorjin.Print.Stream.{print_data_stream}
use khorjin.Shape.{IsEquipped}
use khorjin.Print.Printed.{Printed-access, lines_of}
use khorjin.Print.Totals.{measured-IsEquipped, print_data_stream-measured}
use khorjin.Client.StreamLaws.{Delivers, get_data_stream-frame}
use khorjin.Example.{main_loop}

module _ (p : Platform) (pal : Pal) (rounds : ℕ) where
  -- One call after the other brings a data frame that the client's configuration describes; printed one
  -- after the other they give the lines, and in the end the client and the world are `self'` and `w'`.
  pub data Feeds (self' : C37118Client p.Float) (w' : pal.World)
      : List (Temps p.Float) → List (Line p.Float) → C37118Client p.Float → pal.World → Type 0 where
    fed : Feeds self' w' [] [] self' w'
    feed :
        {t : Temps p.Float} {ts : List (Temps p.Float)} {lines : List (Line p.Float)}
        {self : C37118Client p.Float} {w w1 : pal.World} (polls n : ℕ) (f : DataFrame)
        (rest : List ℕ)
        → IsDataFrame self f
        → length (data_body self.configuration f (n + 2)) ≡ n
        → IsU16 (n + 2)
        → IsBytes (data_body self.configuration f (n + 2))
        → Delivers pal self.socket
            (seal (data_body self.configuration f (n + 2)) ++ rest)
            (Int.pos (n + 2))
            w1
            polls
            cleared
            w
        → polls < rounds
        → Feeds self' w' ts lines
            (measured p f t
              (record self { buffer_rcv = seal (data_body self.configuration f (n + 2)) ++ rest }))
            w1
        → Feeds self' w'
            (t ∷ ts)
            (lines_of (
                print_data_stream (
                  measured p f t (record self {
                    buffer_rcv = seal (data_body self.configuration f (n + 2)) ++ rest;
                  })))
              ++ lines)
            self
            w

  pub main_loop-Feeds :
      (self' : C37118Client p.Float) (w' : pal.World) (ts : List (Temps p.Float))
      (lines : List (Line p.Float)) (self : C37118Client p.Float) (w : pal.World)
      → Feeds self' w' ts lines self w
      → IsEquipped self
      → main_loop p pal rounds ts self w ≡ returns (lines, self', w')
  unfolding main_loop
  main_loop-Feeds self' w' [] lines self w fed v = refl
  main_loop-Feeds self' w' (t ∷ ts) lines self w
        (feed {lines = more} {w1 = w1} polls n f rest u hn hs hb d h feeds) v =
      let heard : C37118Client p.Float = record self {
        buffer_rcv = seal (data_body self.configuration f (n + 2)) ++ rest;
      } in
      let u' : IsDataFrame heard f = record {
        id_code = u.id_code;
        soc = u.soc;
        fracsec = u.fracsec;
        addressed = u.addressed;
        num_pmu = u.num_pmu;
        pmus = u.pmus;
      } in
      let v' : IsEquipped heard = record { num_pmu = v.num_pmu; pmus = v.pmus } in
      rw
        (
          get_data_stream-frame p pal self w w1 rounds polls t h n f rest u hn hs hb d,
          Printed-access (print_data_stream-measured p heard f t u' v'),
          main_loop-Feeds self' w' ts more _ w1 feeds (measured-IsEquipped p heard f t u' v'),
        )
        refl
