-- ===== src/DataFrame/Session.antt =====
-- `parseConfigurationFrame` and `parseDataFrame` one after the other.
use khorjin.Prelude.{
  ℕ, ◌+◌, ◌<◌, ◌≡◌, refl, sym, ap, ◌∙◌, List, [], ◌∷◌, ◌++◌, map, All, IsBytes, IsU16, IsU32,
  length,
}
use mathlib.Core.Path.{subst}
use khorjin.Prelude.Int
use khorjin.Prelude.Outcome.{done}
use khorjin.Platform.{Platform}
use khorjin.Types.{C37118Client, Configuration}
use khorjin.Wire.Crc.Check.{seal}
use khorjin.Config.Spec.{header_of, configuration_of}
use khorjin.Config.Block.{Agrees}
use khorjin.Config.Received.{
  ConfigFrame, IsConfigFrame, config_body, configured, pmus, parse_configuration_frame-encode,
}
use khorjin.Config.Frame.{parse_configuration_frame}
use khorjin.DataFrame.Stat.{apply_stat}
use khorjin.DataFrame.Values.{Temps}
use khorjin.DataFrame.Spec.{PmuData, AllFit, encode_data, encode_all, pmu_temps, pmus_after}
use khorjin.DataFrame.Frame.{parse_data_frame}
use khorjin.DataFrame.Whole.{DataFrame, IsDataFrame, data_body, measured, parse_data_frame-encode}
use khorjin.DataFrame.Ready.{AllMatch, configured-IsDataFrame, measured-IsDataFrame}

module _ (p : Platform) where
  -- The layout of a data frame does not depend on the measured values of the client.
  encode_all-pmus_after :
      (cs : List (Configuration p.Float)) (ds gs : List PmuData) (t : Temps p.Float) (rest : List ℕ)
      → AllFit cs ds
      → encode_all (pmus_after p ds t cs) gs rest ≡ encode_all cs gs rest
  unfolding apply_stat
  encode_all-pmus_after [] [] gs t rest u = refl
  encode_all-pmus_after [] (d ∷ ds) gs t rest u = absurd u
  encode_all-pmus_after (c ∷ cs) [] gs t rest u = absurd u
  encode_all-pmus_after (c ∷ cs) (d ∷ ds) [] t rest u = refl
  encode_all-pmus_after (c ∷ cs) (d ∷ ds) (g ∷ gs) t rest u =
      ap (encode_data c g) (encode_all-pmus_after cs ds gs (pmu_temps p d t c) rest u.1)

  data_body-pmus_after :
      (cs : List (Configuration p.Float)) (ds : List PmuData) (g : DataFrame) (t : Temps p.Float)
      (size : ℕ)
      → AllFit cs ds
      → data_body (pmus_after p ds t cs) g size ≡ data_body cs g size
  data_body-pmus_after cs ds g t size u = rw (encode_all-pmus_after cs ds g.pmus t [] u) refl

  -- A client that receives a configuration frame of the standard, as in
  -- parse_configuration_frame-encode, and then a data frame under the same identification code, laid out
  -- as the configuration frame describes it, with as many words as that has channels and in the formats
  -- that it says, takes in both: the second parser leaves no array that the first has made.
  pub parse_data_frame-configured :
      (self : C37118Client p.Float) (f : ConfigFrame) (g : DataFrame) (t : Temps p.Float) (m n : ℕ)
      (more rest : List ℕ)
      → IsConfigFrame f
      → All (Agrees p (header_of p f.first)) f.others
      → length (config_body f (m + 2)) ≡ m
      → IsU16 (m + 2)
      → IsBytes (config_body f (m + 2))
      → self.idcode ≡ f.id_code
      → AllMatch p (pmus f) g.pmus
      → f.id_code ≡ g.id_code
      → IsU32 g.soc
      → g.fracsec < 16777216
      → length (data_body (map (configuration_of p) (pmus f)) g (n + 2)) ≡ n
      → IsU16 (n + 2)
      → IsBytes (data_body (map (configuration_of p) (pmus f)) g (n + 2))
      → (self' : C37118Client p.Float) × (parse_configuration_frame p self
            (seal (config_body f (m + 2)) ++ more)
            (Int.pos (m + 2))
          ≡ done self')
        × (parse_data_frame p self' t
              (seal (data_body (map (configuration_of p) (pmus f)) g (n + 2)) ++ rest)
              (Int.pos (n + 2))
            ≡ done (measured p g t self'))
  parse_data_frame-configured self f g t m n more rest v a hm hs hb hid match same soc frac hn hs'
        hb' =
      let ready : IsDataFrame (configured p f self) g =
        configured-IsDataFrame p self f g match (subst IsU16 same v.id_code) soc frac same in
      (
        configured p f self,
        (parse_configuration_frame-encode p self f m more v a hm hs hb hid).0,
        parse_data_frame-encode p (configured p f self) g t n rest ready hn hs' hb',
      )

  -- A client takes in two data frames of the standard that are both laid out as its configuration says,
  -- one after the other: what the first has left is as fit for the second as it was before.
  pub parse_data_frame-twice :
      (self : C37118Client p.Float) (f g : DataFrame) (t t' : Temps p.Float) (m n : ℕ)
      (more rest : List ℕ)
      → IsDataFrame self f
      → IsDataFrame self g
      → length (data_body self.configuration f (m + 2)) ≡ m
      → IsU16 (m + 2)
      → IsBytes (data_body self.configuration f (m + 2))
      → length (data_body self.configuration g (n + 2)) ≡ n
      → IsU16 (n + 2)
      → IsBytes (data_body self.configuration g (n + 2))
      → (self' : C37118Client p.Float) × (parse_data_frame p self t
            (seal (data_body self.configuration f (m + 2)) ++ more)
            (Int.pos (m + 2))
          ≡ done self')
        × (parse_data_frame p self' t'
              (seal (data_body self.configuration g (n + 2)) ++ rest)
              (Int.pos (n + 2))
            ≡ done (measured p g t' self'))
  parse_data_frame-twice self f g t t' m n more rest u v hm hs hb hn hs' hb' =
      let same : data_body self.configuration g (n + 2)
          ≡ data_body (pmus_after p f.pmus t self.configuration) g (n + 2) =
        sym (data_body-pmus_after self.configuration f.pmus g t (n + 2) u.pmus) in
      let self' : C37118Client p.Float = measured p f t self in
      (
        self',
        parse_data_frame-encode p self f t m more u hm hs hb,
        ap (λ b. parse_data_frame p self' t' (seal b ++ rest) (Int.pos (n + 2))) same
            ∙ parse_data_frame-encode p self' g t' n rest (measured-IsDataFrame p self f g t u v)
                (subst (λ b. length b ≡ n) same hn) hs' (subst IsBytes same hb'),
      )
