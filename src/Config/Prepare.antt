-- ===== src/Config/Prepare.antt =====
-- `preparePhsor`, `prepareAnalog`, `prepareDigital` and `prepareConfiguration`.
use khorjin.Prelude.{
  ℕ, zero, suc, ◌+◌, ◌*◌, ◌/◌, bit_and, Bool, true, false, Option, none, some, List, [], ◌∷◌, ◌>>=◌,
  get_elem?, replicate, ◌==◌, if◌then◌else◌,
}
use khorjin.Platform.{Platform}
use khorjin.Types.{
  Phasor, Analog, Digital, Channel, Configuration, zero_phasor, zero_analog, zero_digital,
  zero_configuration,
}
use khorjin.Wire.Decode.{two_byte_to_uint16, three_byte_to_uint32, copy_name}

module _ (p : Platform) where
  -- The first loop of `preparePhsor`, over the rest of the array.
  unfoldable pub name_phasors :
      List (Phasor p.Float) → List ℕ → ℕ → Option (List (Phasor p.Float) × ℕ)
  name_phasors [] buffer buf_pos = some ([], buf_pos)
  name_phasors (x ∷ xs) buffer buf_pos = do
    name ← copy_name buffer buf_pos
    (rest, buf_pos) ← name_phasors xs buffer (buf_pos + 16)
    some (record x { channel_name = name } ∷ rest, buf_pos)

  -- `switch (buffer[bufPos++])`: a type byte above 1 leaves the flag alone.
  unfoldable pub phasor_kind : ℕ → Bool → Bool
  phasor_kind byte old = if byte == 0 then true else if byte == 1 then false else old

  unfoldable pub phasor_factor : Bool → ℕ → p.Float
  phasor_factor floating phunit =
      if floating
      then p.float_of_uint 1
      else p.narrow (p.double_mul (p.widen (p.float_of_uint phunit)) (p.double_literal 1 5))

  -- The second loop.
  unfoldable pub scale_phasors :
      Bool → List (Phasor p.Float) → List ℕ → ℕ → Option (List (Phasor p.Float))
  scale_phasors floating [] buffer buf_pos = some []
  scale_phasors floating (x ∷ xs) buffer buf_pos = do
    kind ← get_elem? buffer buf_pos
    (phunit, buf_pos) ← three_byte_to_uint32 buffer (buf_pos + 1)
    rest ← scale_phasors floating xs buffer buf_pos
    some (
        record x {
          phasor_is_v_or_i = phasor_kind kind x.phasor_is_v_or_i;
          conversion_factor = phasor_factor floating phunit;
        }
        ∷ rest)

  unfoldable pub prepare_phsor : Configuration p.Float → List ℕ → ℕ → Option (List (Phasor p.Float))
  prepare_phsor self buffer buf_pos = do
    (phasors, buf_pos) ←
        name_phasors (replicate self.number_of_phasors (zero_phasor p)) buffer buf_pos
    scale_phasors self.phasor_is_floating_point phasors buffer
        (buf_pos + 16 * (self.number_of_analogs + 16 * self.number_of_digitals))

  unfoldable pub name_analogs :
      List (Analog p.Float) → List ℕ → ℕ → Option (List (Analog p.Float) × ℕ)
  name_analogs [] buffer buf_pos = some ([], buf_pos)
  name_analogs (x ∷ xs) buffer buf_pos = do
    name ← copy_name buffer buf_pos
    (rest, buf_pos) ← name_analogs xs buffer (buf_pos + 16)
    some (record x { channel_name = name } ∷ rest, buf_pos)

  unfoldable pub type_analogs : List (Analog p.Float) → List ℕ → ℕ → Option (List (Analog p.Float))
  type_analogs [] buffer buf_pos = some []
  type_analogs (x ∷ xs) buffer buf_pos = do
    kind ← get_elem? buffer buf_pos
    rest ← type_analogs xs buffer (buf_pos + 4)
    some (record x { analog_type = kind; conversion_factor = p.float_of_uint 1 } ∷ rest)

  unfoldable pub prepare_analog :
      Configuration p.Float → List ℕ → ℕ → Option (List (Analog p.Float))
  prepare_analog self buffer buf_pos = do
    (analogs, buf_pos) ←
        name_analogs (replicate self.number_of_analogs (zero_analog p)) buffer buf_pos
    type_analogs analogs buffer
        (buf_pos + (16 * (16 * self.number_of_digitals) + 4 * self.number_of_phasors))

-- The loop over the 16 channels of one digital word.
unfoldable pub name_channels : List Channel → List ℕ → ℕ → Option (List Channel × ℕ)
name_channels [] buffer buf_pos = some ([], buf_pos)
name_channels (c ∷ cs) buffer buf_pos = do
  name ← copy_name buffer buf_pos
  (rest, buf_pos) ← name_channels cs buffer (buf_pos + 16)
  some (record c { channel_name = name } ∷ rest, buf_pos)

unfoldable pub name_digitals : List Digital → List ℕ → ℕ → Option (List Digital × ℕ)
name_digitals [] buffer buf_pos = some ([], buf_pos)
name_digitals (d ∷ ds) buffer buf_pos = do
  (channels, buf_pos) ← name_channels d.channel buffer buf_pos
  (rest, buf_pos) ← name_digitals ds buffer buf_pos
  some (record d { channel = channels } ∷ rest, buf_pos)

-- `if (dgTemp & 1 == 1)` is `dgTemp & (1 == 1)`, the lowest bit; the word then moves right by one.
unfoldable pub enable_channels : ℕ → List Channel → List Channel
enable_channels word [] = []
enable_channels word (c ∷ cs) =
    record c { is_enabled = if bit_and word 1 == 0 then c.is_enabled else true }
    ∷ enable_channels (word / 2) cs

unfoldable pub mask_digitals : List Digital → List ℕ → ℕ → Option (List Digital)
mask_digitals [] buffer buf_pos = some []
mask_digitals (d ∷ ds) buffer buf_pos = do
  (mask, buf_pos) ← two_byte_to_uint16 buffer buf_pos
  (valid, buf_pos) ← two_byte_to_uint16 buffer buf_pos
  rest ← mask_digitals ds buffer buf_pos
  some (
      record d {
        dg_mask_word = mask;
        valid_inputs = valid;
        channel = enable_channels valid d.channel;
      }
      ∷ rest)

module _ (p : Platform) where
  unfoldable pub prepare_digital : Configuration p.Float → List ℕ → ℕ → Option (List Digital)
  prepare_digital self buffer buf_pos = do
    (digitals, buf_pos) ←
        name_digitals (replicate self.number_of_digitals zero_digital) buffer buf_pos
    mask_digitals digitals buffer (buf_pos + 4 * (self.number_of_phasors + self.number_of_analogs))

  -- The round of `prepareConfiguration` down to DGNMR, on a structure from `calloc`.
  unfoldable pub prepare_header : List ℕ → ℕ → Option (Configuration p.Float × ℕ)
  prepare_header buffer buf_pos = do
    name ← copy_name buffer buf_pos
    (id_code, buf_pos) ← two_byte_to_uint16 buffer (buf_pos + 16)
    (format, buf_pos) ← two_byte_to_uint16 buffer buf_pos
    (phnmr, buf_pos) ← two_byte_to_uint16 buffer buf_pos
    (annmr, buf_pos) ← two_byte_to_uint16 buffer buf_pos
    (dgnmr, buf_pos) ← two_byte_to_uint16 buffer buf_pos
    some (
      record (zero_configuration p) {
        station_name = name;
        pmu_idcode = id_code;
        phasor_is_polar = bit_and format 0x1 == 0x1;
        phasor_is_floating_point = bit_and format 0x2 == 0x2;
        analog_is_floating_point = bit_and format 0x4 == 0x4;
        freq_is_floating_point = bit_and format 0x8 == 0x8;
        number_of_phasors = phnmr;
        number_of_analogs = annmr;
        number_of_digitals = dgnmr;
      },
      buf_pos,
    )

  -- `switch (fnom & 0x1)`
  unfoldable pub nominal_frequency : ℕ → p.Float
  nominal_frequency fnom = if bit_and fnom 0x1 == 0 then p.float_of_uint 60 else p.float_of_uint 50

  -- The element that `configurationPtr` points at, from inside a round.
  abbrev pub first_or :
      Option (Configuration p.Float) → Configuration p.Float → Configuration p.Float
  first_or none self = self
  first_or (some c) self = c

  -- `rounds` is `numPmu - i`. `first` is the element that `configurationPtr` points at, which the
  -- three functions are called with in every round and whose two counts move the position; it is
  -- `none` in the first round, where that element is the round's own.
  unfoldable pub prepare_pmus :
      ℕ → Option (Configuration p.Float) → List ℕ → ℕ → Option (List (Configuration p.Float))
  prepare_pmus zero first buffer buf_pos = some []
  prepare_pmus (suc rounds) first buffer buf_pos = do
    (self, buf_pos) ← prepare_header buffer buf_pos
    let configuration_ptr = first_or first self
    phasors ←
        if self.number_of_phasors == 0
        then some []
        else prepare_phsor p configuration_ptr buffer buf_pos
    let buf_pos = buf_pos + 16 * configuration_ptr.number_of_phasors
    analogs ←
        if self.number_of_analogs == 0
        then some []
        else prepare_analog p configuration_ptr buffer buf_pos
    let buf_pos = buf_pos + 16 * configuration_ptr.number_of_analogs
    digitals ←
        if self.number_of_digitals == 0
        then some []
        else prepare_digital configuration_ptr buffer buf_pos
    let buf_pos =
        buf_pos
        + (16 * 16 * self.number_of_digitals
            + 4 * (self.number_of_analogs + self.number_of_digitals + self.number_of_phasors))
    (fnom, buf_pos) ← two_byte_to_uint16 buffer buf_pos
    (cfgcnt, buf_pos) ← two_byte_to_uint16 buffer buf_pos
    rest ← prepare_pmus rounds (some configuration_ptr) buffer buf_pos
    some (
        record self {
          phasor = phasors;
          analog = analogs;
          digital = digitals;
          f_nom = nominal_frequency fnom;
          cfg_cnt = cfgcnt;
        }
        ∷ rest)

  unfoldable pub prepare_configuration : ℕ → List ℕ → ℕ → Option (List (Configuration p.Float))
  prepare_configuration num_pmu buffer buf_pos = prepare_pmus num_pmu none buffer buf_pos
