-- ===== src/Config/Spec.antt =====
-- The configuration frame as the standard lays it out, and the structures that it stands for.
use khorjin.Prelude.{
  ℕ, ◌/◌, ◌%◌, ◌<◌, ◌≡◌, Bool, true, false, if◌then◌else◌, List, [], ◌∷◌, ◌++◌, map, All, IsU16,
  length, ◌==◌,
}
use khorjin.Platform.{Platform}
use khorjin.Types.{
  Phasor, Analog, Digital, Channel, Configuration, zero_phasor, zero_analog, zero_digital,
  zero_channel, zero_configuration,
}
use khorjin.Wire.Cursor.{be16, be24, stored_name}

-- A channel name, the byte that says what is measured, and the 24-bit conversion factor.
pub record ChannelSpec : Type 0 where
  pub name : List ℕ
  pub kind : ℕ
  pub factor : ℕ

-- The 16 names of a digital word and its two masks.
pub record DigitalSpec : Type 0 where
  pub names : List (List ℕ)
  pub normal : ℕ
  pub valid : ℕ

pub record PmuSpec : Type 0 where
  pub station : List ℕ
  pub id_code : ℕ
  pub format : ℕ
  pub phasors : List ChannelSpec
  pub analogs : List ChannelSpec
  pub digitals : List DigitalSpec
  pub fnom : ℕ
  pub cfgcnt : ℕ

abbrev pub IsName : List ℕ → Type 0
IsName name = length name ≡ 16

abbrev pub IsChannel : ChannelSpec → Type 0
IsChannel s = IsName s.name × (s.factor < 16777216)

abbrev pub IsDigital : DigitalSpec → Type 0
IsDigital s = (length s.names ≡ 16) × All IsName s.names × IsU16 s.normal × IsU16 s.valid

-- Every field fits its place in the frame.
pub record IsPmu (s : PmuSpec) : Type 0 where
  pub station : IsName s.station
  pub id_code : IsU16 s.id_code
  pub format : IsU16 s.format
  pub phasors : All IsChannel s.phasors
  pub analogs : All IsChannel s.analogs
  pub digitals : All IsDigital s.digitals
  pub phnmr : IsU16 (length s.phasors)
  pub annmr : IsU16 (length s.analogs)
  pub dgnmr : IsU16 (length s.digitals)
  pub fnom : IsU16 s.fnom
  pub cfgcnt : IsU16 s.cfgcnt

abbrev pub encode_names : List (List ℕ) → List ℕ
encode_names [] = []
encode_names (n ∷ ns) = n ++ encode_names ns

abbrev pub channel_names : List ChannelSpec → List ℕ
channel_names [] = []
channel_names (s ∷ ss) = s.name ++ channel_names ss

abbrev pub channel_units : List ChannelSpec → List ℕ
channel_units [] = []
channel_units (s ∷ ss) = s.kind ∷ be24 s.factor ++ channel_units ss

abbrev pub digital_names : List DigitalSpec → List ℕ
digital_names [] = []
digital_names (s ∷ ss) = encode_names s.names ++ digital_names ss

abbrev pub digital_units : List DigitalSpec → List ℕ
digital_units [] = []
digital_units (s ∷ ss) = be16 s.normal ++ be16 s.valid ++ digital_units ss

-- What stands in front of the channel names.
abbrev pub encode_header : PmuSpec → List ℕ → List ℕ
encode_header s rest =
    s.station
    ++ (be16 s.id_code
        ++ (be16 s.format
            ++ (be16 (length s.phasors)
                ++ (be16 (length s.analogs) ++ (be16 (length s.digitals) ++ rest)))))

-- The channel names, the conversion factors and the masks, with `rest` behind them.
abbrev pub encode_channels : PmuSpec → List ℕ → List ℕ
encode_channels s rest =
    channel_names s.phasors
    ++ (channel_names s.analogs
        ++ (digital_names s.digitals
            ++ (channel_units s.phasors
                ++ (channel_units s.analogs ++ (digital_units s.digitals ++ rest)))))

abbrev pub encode_pmu : PmuSpec → List ℕ → List ℕ
encode_pmu s rest = encode_header s (encode_channels s (be16 s.fnom ++ (be16 s.cfgcnt ++ rest)))

abbrev pub encode_pmus : List PmuSpec → List ℕ → List ℕ
encode_pmus [] rest = rest
encode_pmus (s ∷ ss) rest = encode_pmu s (encode_pmus ss rest)

-- The structures.
abbrev pub named_channel : List ℕ → Channel
named_channel name = record zero_channel { channel_name = stored_name name }

abbrev pub named_digital : DigitalSpec → Digital
named_digital s = record zero_digital { channel = map named_channel s.names }

-- Channel k of a digital word is valid if bit k of the second mask is set.
abbrev pub channels_of : ℕ → List (List ℕ) → List Channel
channels_of valid [] = []
channels_of valid (n ∷ ns) =
    record (named_channel n) { is_enabled = valid % 2 == 1 } ∷ channels_of (valid / 2) ns

abbrev pub digital_of : DigitalSpec → Digital
digital_of s = record (named_digital s) {
  dg_mask_word = s.normal;
  valid_inputs = s.valid;
  channel = channels_of s.valid s.names;
}

module _ (p : Platform) where
  abbrev pub named_phasor : ChannelSpec → Phasor p.Float
  named_phasor s = record (zero_phasor p) { channel_name = stored_name s.name }

  -- PHUNIT counts in 10 ^ -5 units, and is not used for floating point phasors.
  abbrev pub factor_of : Bool → ℕ → p.Float
  factor_of true factor = p.float_of_uint 1
  factor_of false factor =
      p.narrow (p.double_mul (p.widen (p.float_of_uint factor)) (p.double_literal 1 5))

  abbrev pub phasor_of : Bool → ChannelSpec → Phasor p.Float
  phasor_of floating s = record (named_phasor s) {
    phasor_is_v_or_i = s.kind == 0;
    conversion_factor = factor_of floating s.factor;
  }

  abbrev pub named_analog : ChannelSpec → Analog p.Float
  named_analog s = record (zero_analog p) { channel_name = stored_name s.name }

  abbrev pub analog_of : ChannelSpec → Analog p.Float
  analog_of s = record (named_analog s) {
    analog_type = s.kind;
    conversion_factor = p.float_of_uint 1;
  }

  -- The bits of FORMAT, from the lowest: polar phasors, then floating point phasors, analogs and
  -- frequency.
  abbrev pub header_of : PmuSpec → Configuration p.Float
  header_of s = record (zero_configuration p) {
    station_name = stored_name s.station;
    pmu_idcode = s.id_code;
    phasor_is_polar = s.format % 2 == 1;
    phasor_is_floating_point = s.format / 2 % 2 == 1;
    analog_is_floating_point = s.format / 4 % 2 == 1;
    freq_is_floating_point = s.format / 8 % 2 == 1;
    number_of_phasors = length s.phasors;
    number_of_analogs = length s.analogs;
    number_of_digitals = length s.digitals;
  }

  -- 50 Hz if the lowest bit of FNOM is set.
  abbrev pub nominal_of : ℕ → p.Float
  nominal_of fnom = if fnom % 2 == 1 then p.float_of_uint 50 else p.float_of_uint 60

  abbrev pub configuration_of : PmuSpec → Configuration p.Float
  configuration_of s = record (header_of s) {
    phasor = map (phasor_of (header_of s).phasor_is_floating_point) s.phasors;
    analog = map analog_of s.analogs;
    digital = map digital_of s.digitals;
    f_nom = nominal_of s.fnom;
    cfg_cnt = s.cfgcnt;
  }
