-- ===== src/DataFrame/Whole.antt =====
-- `parseDataFrame` on a whole data frame.
use khorjin.Prelude.{
  ℕ, ◌+◌, ◌<◌, ◌≡◌, refl, ap, ◌∙◌, arith, Bool, true, some, List, [], ◌∷◌, ◌++◌, IsBytes, IsU16,
  IsU32, length, drop, append_assoc, ◌==◌, ==_refl,
}
use khorjin.Prelude.Int
use khorjin.Prelude.Int.{ℤ}
use khorjin.Prelude.Outcome.{done}
use khorjin.Platform.{Platform}
use khorjin.Types.{C37118Client, Configuration}
use khorjin.Wire.Cursor.{be16, two_byte-be16}
use khorjin.Wire.Crc.Check.{crc_of, seal, crc_check-seal}
use khorjin.TimeStamp.{stamp}
use khorjin.TimeStamp.Laws.{encode_stamp, parse_time_stamp-encode}
use khorjin.DataFrame.Values.{Temps}
use khorjin.DataFrame.Pmu.{read_pmus, read_data}
use khorjin.DataFrame.Frame.{parse_data_frame}
use khorjin.DataFrame.Spec.{
  PhasorWords, PmuData, AllFit, encode_phasors, encode_words, encode_data, encode_all, pmus_after,
}
use khorjin.DataFrame.Received.{read_pmus-encode}

pub record DataFrame : Type 0 where
  pub id_code : ℕ
  pub soc : ℕ
  pub quality : ℕ
  pub fracsec : ℕ
  pub pmus : List PmuData

-- All of the frame but its checksum.
abbrev pub data_body : {F : Type 0} → List (Configuration F) → DataFrame → ℕ → List ℕ
data_body cs f size =
    0xAA ∷ 0x01 ∷ be16 size
    ++ (be16 f.id_code ++ (encode_stamp f.soc f.quality f.fracsec ++ encode_all cs f.pmus []))

-- The words that fit their places, and PMUs that fit those of the client.
pub record IsDataFrame {F : Type 0} (self : C37118Client F) (f : DataFrame) : Type 0 where
  pub id_code : IsU16 f.id_code
  pub soc : IsU32 f.soc
  pub fracsec : f.fracsec < 16777216
  pub addressed : self.idcode ≡ f.id_code
  pub num_pmu : self.num_pmu ≡ length f.pmus
  pub pmus : AllFit self.configuration f.pmus

encode_phasors-append :
    (b : Bool) (ws : List PhasorWords) (rest more : List ℕ)
    → encode_phasors b ws rest ++ more ≡ encode_phasors b ws (rest ++ more)
encode_phasors-append b [] rest more = refl
encode_phasors-append b (w ∷ ws) rest more =
    simp (append_assoc, encode_phasors-append b ws rest more)

encode_words-append :
    (b : Bool) (ws rest more : List ℕ)
    → encode_words b ws rest ++ more ≡ encode_words b ws (rest ++ more)
encode_words-append b [] rest more = refl
encode_words-append b (w ∷ ws) rest more = simp (append_assoc, encode_words-append b ws rest more)

encode_data-append :
    {F : Type 0} (c : Configuration F) (d : PmuData) (rest more : List ℕ)
    → encode_data c d rest ++ more ≡ encode_data c d (rest ++ more)
encode_data-append c d rest more = simp (append_assoc, encode_phasors-append, encode_words-append)

encode_all-append :
    {F : Type 0} (cs : List (Configuration F)) (ds : List PmuData) (rest more : List ℕ)
    → encode_all cs ds rest ++ more ≡ encode_all cs ds (rest ++ more)
encode_all-append [] ds rest more = refl
encode_all-append (c ∷ cs) [] rest more = refl
encode_all-append (c ∷ cs) (d ∷ ds) rest more =
    encode_data-append c d (encode_all cs ds rest) more
    ∙ ap (encode_data c d) (encode_all-append cs ds rest more)

module _ (p : Platform) where
  -- The client that has taken the frame in; `t` is what the uninitialised variables held.
  abbrev pub measured : DataFrame → Temps p.Float → C37118Client p.Float → C37118Client p.Float
  measured f t self = record self {
    data_time_stamp = stamp p self.time_base f.soc f.quality f.fracsec self.data_time_stamp;
    configuration = pmus_after p f.pmus t self.configuration;
  }

  read_data-encode :
      (self : C37118Client p.Float) (f : DataFrame) (t : Temps p.Float) (size : ℕ)
      (buf rest : List ℕ)
      → IsDataFrame self f
      → buf ≡ data_body self.configuration f size ++ rest
      → read_data p self t buf 6 ≡ some (measured f t self)
  unfolding read_data
  read_data-encode self f t size buf rest v e = rw (
    parse_time_stamp-encode p self.data_time_stamp self.time_base buf 6 f.soc f.quality f.fracsec _
        v.soc v.fracsec (ap (drop 6) e),
    ap (λ k. read_pmus p k self.configuration t buf 14) v.num_pmu
        ∙ read_pmus-encode p self.configuration f.pmus t buf 14 rest v.pmus
            (ap (drop 14) e ∙ encode_all-append self.configuration f.pmus [] rest),
  )

  -- A client that receives a data frame of the standard under its identification code, laid out as its
  -- configuration says, of bytes and of a size of 16 bits, accepts it, leaves no array, and then holds
  -- the words of the frame, as the parser converts them, whatever the buffer holds behind the frame.
  pub parse_data_frame-encode :
      (self : C37118Client p.Float) (f : DataFrame) (t : Temps p.Float) (n : ℕ) (rest : List ℕ)
      → IsDataFrame self f
      → length (data_body self.configuration f (n + 2)) ≡ n
      → IsU16 (n + 2)
      → IsBytes (data_body self.configuration f (n + 2))
      → parse_data_frame p self t
          (seal (data_body self.configuration f (n + 2)) ++ rest)
          (Int.pos (n + 2))
        ≡ done (measured f t self)
  unfolding parse_data_frame
  parse_data_frame-encode self f t n rest v hn hs hb =
      let body : List ℕ = data_body self.configuration f (n + 2) in
      let buf : List ℕ = seal body ++ rest in
      let e : buf ≡ body ++ (be16 (crc_of body) ++ rest) =
        append_assoc body (be16 (crc_of body)) rest in
      let same : (f.id_code == self.idcode) ≡ true = rw v.addressed (==_refl f.id_code) in
      rw (
        crc_check-seal body rest n hb hn (omega arith),
        two_byte-be16 buf 2 (n + 2) _ hs (ap (drop 2) e),
        ==_refl (n + 2),
        two_byte-be16 buf 4 f.id_code _ v.id_code (ap (drop 4) e),
        same,
        read_data-encode self f t (n + 2) buf (be16 (crc_of body) ++ rest) v e,
      )
