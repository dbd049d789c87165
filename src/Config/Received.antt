-- ===== src/Config/Received.antt =====
-- `parseConfigurationFrame` on a configuration frame of the standard.
use khorjin.Prelude.{
  ℕ, ◌+◌, ◌-◌, ◌*◌, ◌/◌, ◌<◌, ◌≡◌, refl, sym, ap, ◌∙◌, arith, true, false, some, List, [], ◌∷◌,
  ◌++◌, map, All, IsBytes, IsU16, IsU32, length, length-append, drop, drop-length, ◌||◌,
  append_assoc, ◌==◌, ==_refl,
}
use khorjin.Prelude.Int.{pos}
use khorjin.Prelude.Outcome.{done}
use khorjin.Platform.{Platform}
use khorjin.Types.{C37118Client}
use khorjin.Wire.Cursor.{be16, be32, two_byte-be16, four_byte-be32}
use khorjin.Wire.Crc.Check.{crc_of, seal, crc_check-seal}
use khorjin.TimeStamp.{stamp}
use khorjin.TimeStamp.Bounds.{stamp_values}
use khorjin.TimeStamp.Laws.{encode_stamp, parse_time_stamp-encode}
use khorjin.Config.Spec.{PmuSpec, IsPmu, encode_pmu, encode_pmus, header_of, configuration_of}
use khorjin.Config.Block.{Agrees}
use khorjin.Config.Rounds.{prepare_configuration-encode}
use khorjin.Config.Read.{data_rate_at, read_configuration}
use khorjin.Config.Frame.{parse_configuration_frame}

-- The configuration frame: its first PMU and the others.
pub record ConfigFrame : Type 0 where
  pub id_code : ℕ
  pub soc : ℕ
  pub quality : ℕ
  pub fracsec : ℕ
  pub time_base : ℕ
  pub first : PmuSpec
  pub others : List PmuSpec
  pub data_rate : ℕ

abbrev pub pmus : ConfigFrame → List PmuSpec
pmus f = f.first ∷ f.others

-- The frame in front of the PMUs.
abbrev pub config_start : ConfigFrame → ℕ → List ℕ → List ℕ
config_start f size rest =
    0xAA ∷ 0x31 ∷ be16 size
    ++ (be16 f.id_code
        ++ (encode_stamp f.soc f.quality f.fracsec
            ++ (be32 f.time_base ++ (be16 (length (pmus f)) ++ rest))))

-- All of the frame but its checksum.
abbrev pub config_body : ConfigFrame → ℕ → List ℕ
config_body f size = config_start f size (encode_pmus (pmus f) (be16 f.data_rate))

pub record IsConfigFrame (f : ConfigFrame) : Type 0 where
  pub id_code : IsU16 f.id_code
  pub soc : IsU32 f.soc
  pub fracsec : f.fracsec < 16777216
  pub time_base : IsU32 f.time_base
  pub num_pmu : IsU16 (length (pmus f))
  pub data_rate : IsU16 f.data_rate
  pub pmus : All IsPmu (pmus f)

encode_pmu-append :
    (s : PmuSpec) (rest more : List ℕ) → encode_pmu s rest ++ more ≡ encode_pmu s (rest ++ more)
encode_pmu-append s rest more = simp append_assoc

encode_pmus-append :
    (ss : List PmuSpec) (rest more : List ℕ)
    → encode_pmus ss rest ++ more ≡ encode_pmus ss (rest ++ more)
encode_pmus-append [] rest more = refl
encode_pmus-append (s ∷ ss) rest more =
    encode_pmu-append s (encode_pmus ss rest) more
    ∙ ap (encode_pmu s) (encode_pmus-append ss rest more)

module _ (p : Platform) where
  -- The client that knows the frame.
  abbrev pub configured : ConfigFrame → C37118Client p.Float → C37118Client p.Float
  configured f self = record self {
    idcode = f.id_code;
    time_base = f.time_base;
    config_time_stamp = stamp p 1000 f.soc f.quality f.fracsec self.config_time_stamp;
    num_pmu = length (pmus f);
    data_rate = f.data_rate;
    configuration = map (configuration_of p) (pmus f);
  }

  data_rate_at-end :
      (f : ConfigFrame) (size n : ℕ) (buf rest : List ℕ)
      → IsU16 f.data_rate
      → buf ≡ config_body f size ++ rest
      → length (config_body f size) ≡ n
      → data_rate_at buf (n + 2) ≡ some f.data_rate
  unfolding data_rate_at
  data_rate_at-end f size n buf rest h e hn =
      let front : List ℕ = config_start f size (encode_pmus (pmus f) []) in
      let split : config_body f size ≡ front ++ be16 f.data_rate =
        ap (config_start f size) (sym (encode_pmus-append (pmus f) [] (be16 f.data_rate))) in
      let at : drop (length front) buf ≡ be16 f.data_rate ++ rest =
        ap (drop (length front))
          (e ∙ ap (λ b. b ++ rest) split ∙ append_assoc front (be16 f.data_rate) rest)
        ∙ drop-length front (be16 f.data_rate ++ rest) in
      let place : n + 2 - 4 ≡ length front =
        omega (arith, hn, ap length split, length-append front (be16 f.data_rate)) in
      let big : (n + 2 == 0 || n + 2 == 1 || n + 2 == 2 || n + 2 == 3) ≡ false =
        ground (arith, hn, ap length split, length-append front (be16 f.data_rate)) in
      rw (big, place, two_byte-be16 buf (length front) f.data_rate rest h at)

  read_configuration-encode :
      (self : C37118Client p.Float) (f : ConfigFrame) (size n : ℕ) (buf rest : List ℕ)
      → IsConfigFrame f
      → All (Agrees p (header_of p f.first)) f.others
      → buf ≡ config_body f size ++ rest
      → length (config_body f size) ≡ n
      → self.idcode ≡ f.id_code
      → read_configuration p self buf (n + 2) 6 ≡ some (configured f self)
  unfolding read_configuration
  read_configuration-encode self f size n buf rest v a e hn hid =
      rw
        (
          four_byte-be32 buf 14 f.time_base _ v.time_base (ap (drop 14) e),
          parse_time_stamp-encode p self.config_time_stamp 1000 buf 6 f.soc f.quality f.fracsec _
              v.soc v.fracsec (ap (drop 6) e),
          two_byte-be16 buf 18 (length (pmus f)) _ v.num_pmu (ap (drop 18) e),
          data_rate_at-end f size n buf rest v.data_rate e hn,
          prepare_configuration-encode p f.first f.others buf 20 (be16 f.data_rate ++ rest) v.pmus a
              (ap (drop 20) e ∙ encode_pmus-append (pmus f) (be16 f.data_rate) rest),
        )
        (ap (λ i. some (record (configured f self) { idcode = i })) hid)

  -- A client that receives a configuration frame of the standard under its own identification code,
  -- of bytes and of a size of 16 bits, in which every PMU has as many phasors, analogs and digital
  -- words as the first and its phasor format, accepts it, whatever the buffer holds behind the frame,
  -- and then holds what the frame says, but for the time stamp. That is what parseTimeStamp makes of its
  -- words with a time base of 1000, whatever TIME_BASE says: FRACSEC counts as milliseconds.
  pub parse_configuration_frame-encode :
      (self : C37118Client p.Float) (f : ConfigFrame) (n : ℕ) (rest : List ℕ)
      → IsConfigFrame f
      → All (Agrees p (header_of p f.first)) f.others
      → length (config_body f (n + 2)) ≡ n
      → IsU16 (n + 2)
      → IsBytes (config_body f (n + 2))
      → self.idcode ≡ f.id_code
      → (parse_configuration_frame p self (seal (config_body f (n + 2)) ++ rest) (pos (n + 2))
          ≡ done (configured f self))
        × ((configured f self).config_time_stamp.second_of_cenctury ≡ f.soc)
        × ((configured f self).config_time_stamp.time_value_in_ms ≡ f.soc * 1000 + f.fracsec)
        × ((configured f self).config_time_stamp.fraction_of_second
            ≡ p.float_div (p.float_of_uint f.fracsec) (p.float_of_uint 1000))
  unfolding parse_configuration_frame
  parse_configuration_frame-encode self f n rest v a hn hs hb hid =
      let body : List ℕ = config_body f (n + 2) in
      let buf : List ℕ = seal body ++ rest in
      let e : buf ≡ body ++ (be16 (crc_of body) ++ rest) =
        append_assoc body (be16 (crc_of body)) rest in
      let same : (f.id_code == self.idcode) ≡ true = rw hid (==_refl f.id_code) in
      let (second, ms, fraction) =
        stamp_values p self.config_time_stamp 1000 f.soc f.quality f.fracsec (omega arith) in
      let whole : f.fracsec * 1000 / 1000 ≡ f.fracsec = omega arith in
      (
        rw (
          crc_check-seal body rest n hb hn (omega arith),
          two_byte-be16 buf 2 (n + 2) _ hs (ap (drop 2) e),
          ==_refl (n + 2),
          two_byte-be16 buf 4 f.id_code _ v.id_code (ap (drop 4) e),
          same,
          read_configuration-encode (record self { idcode = f.id_code }) f (n + 2) n buf
              (be16 (crc_of body) ++ rest) v a e hn refl,
        ),
        second,
        ms ∙ ap (λ n. f.soc * 1000 + n) whole,
        fraction,
      )
