-- ===== src/Config/Block.antt =====
-- One PMU of an encoded frame: its header, and the arrays of its channels.
use khorjin.Prelude.{
  ℕ, ◌+◌, ◌*◌, ◌≡◌, refl, ap, arith, Option, some, List, ◌++◌, map, length, drop, drop-past,
}
use khorjin.Platform.{Platform}
use khorjin.Types.{Configuration}
use khorjin.Wire.Cursor.{be16, copy_name-at, two_byte-be16}
use khorjin.Config.Prepare.{
  prepare_phsor, prepare_analog, prepare_digital, prepare_header, first_or,
}
use khorjin.Config.Leaves.{bit_0, bit_1, bit_2, bit_3}
use khorjin.Config.Spec.{
  PmuSpec, IsPmu, encode_header, encode_channels, channel_names, channel_units, digital_names,
  digital_units, phasor_of, analog_of, digital_of, header_of,
}
use khorjin.Config.Arrays.{
  length-channel_names, length-channel_units, length-digital_names, length-digital_units,
  name_phasors-encode, scale_phasors-encode, name_analogs-encode, type_analogs-encode,
  name_digitals-encode, mask_digitals-encode,
}

module _ (p : Platform) where
  -- The structure that `configurationPtr` points at agrees with a PMU in the numbers of its channels
  -- and in the format of its phasors.
  pub record Agrees (c : Configuration p.Float) (s : PmuSpec) : Type 0 where
    pub phasors : c.number_of_phasors ≡ length s.phasors
    pub analogs : c.number_of_analogs ≡ length s.analogs
    pub digitals : c.number_of_digitals ≡ length s.digitals
    pub floating : c.phasor_is_floating_point ≡ (header_of p s).phasor_is_floating_point

  -- The element that the round of `s` calls the three functions with.
  abbrev pub pointed : Option (Configuration p.Float) → PmuSpec → Configuration p.Float
  pointed first s = first_or p first (header_of p s)

  pub prepare_header-encode :
      (s : PmuSpec) (buf : List ℕ) (pos : ℕ) (rest : List ℕ)
      → IsPmu s
      → drop pos buf ≡ encode_header s rest
      → (prepare_header p buf pos ≡ some (header_of p s, pos + 26)) × (drop (pos + 26) buf ≡ rest)
  unfolding prepare_header
  prepare_header-encode s buf pos rest v e =
      let e0 : drop (pos + 16) buf
          ≡ be16 s.id_code
            ++ (be16 s.format
                ++ (be16 (length s.phasors)
                    ++ (be16 (length s.analogs) ++ (be16 (length s.digitals) ++ rest)))) =
        drop-past pos 16 buf s.station _ e v.station in
      let e1 : drop (pos + 16 + 2) buf
          ≡ be16 s.format
            ++ (be16 (length s.phasors)
                ++ (be16 (length s.analogs) ++ (be16 (length s.digitals) ++ rest))) =
        drop-past (pos + 16) 2 buf (be16 s.id_code) _ e0 refl in
      let e2 : drop (pos + 16 + 2 + 2) buf
          ≡ be16 (length s.phasors)
            ++ (be16 (length s.analogs) ++ (be16 (length s.digitals) ++ rest)) =
        drop-past (pos + 16 + 2) 2 buf (be16 s.format) _ e1 refl in
      let e3 : drop (pos + 16 + 2 + 2 + 2) buf
          ≡ be16 (length s.analogs) ++ (be16 (length s.digitals) ++ rest) =
        drop-past (pos + 16 + 2 + 2) 2 buf (be16 (length s.phasors)) _ e2 refl in
      let e4 : drop (pos + 16 + 2 + 2 + 2 + 2) buf ≡ be16 (length s.digitals) ++ rest =
        drop-past (pos + 16 + 2 + 2 + 2) 2 buf (be16 (length s.analogs)) _ e3 refl in
      let at : pos + 16 + 2 + 2 + 2 + 2 + 2 ≡ pos + 26 = omega arith in
      (
        rw
            (
              copy_name-at buf pos s.station _ v.station e,
              two_byte-be16 buf (pos + 16) s.id_code _ v.id_code e0,
              two_byte-be16 buf (pos + 16 + 2) s.format _ v.format e1,
              two_byte-be16 buf (pos + 16 + 2 + 2) (length s.phasors) _ v.phnmr e2,
              two_byte-be16 buf (pos + 16 + 2 + 2 + 2) (length s.analogs) _ v.annmr e3,
              two_byte-be16 buf (pos + 16 + 2 + 2 + 2 + 2) (length s.digitals) _ v.dgnmr e4,
              bit_0 s.format,
              bit_1 s.format,
              bit_2 s.format,
              bit_3 s.format,
            )
            (ap (λ q. some (header_of p s, q)) at),
        rw (← at)
            (drop-past (pos + 16 + 2 + 2 + 2 + 2) 2 buf (be16 (length s.digitals)) rest e4 refl),
      )

  module _ (s : PmuSpec) (buf : List ℕ) (pos : ℕ) (rest : List ℕ) (v : IsPmu s)
      (e : drop pos buf ≡ encode_channels s rest) where
    abbrev pub np : ℕ
    np = length s.phasors

    abbrev pub na : ℕ
    na = length s.analogs

    abbrev pub nd : ℕ
    nd = length s.digitals

    past_phasors :
        drop (pos + 16 * np) buf
        ≡ channel_names s.analogs
          ++ (digital_names s.digitals
              ++ (channel_units s.phasors
                  ++ (channel_units s.analogs ++ (digital_units s.digitals ++ rest))))
    past_phasors =
        drop-past pos (16 * np) buf (channel_names s.phasors) _ e
          (length-channel_names s.phasors v.phasors)

    past_analogs :
        drop (pos + 16 * np + 16 * na) buf
        ≡ digital_names s.digitals
          ++ (channel_units s.phasors
              ++ (channel_units s.analogs ++ (digital_units s.digitals ++ rest)))
    past_analogs =
        drop-past (pos + 16 * np) (16 * na) buf (channel_names s.analogs) _ past_phasors
          (length-channel_names s.analogs v.analogs)

    past_names :
        drop (pos + 16 * np + 16 * na + 256 * nd) buf
        ≡ channel_units s.phasors ++ (channel_units s.analogs ++ (digital_units s.digitals ++ rest))
    past_names =
        drop-past (pos + 16 * np + 16 * na) (256 * nd) buf (digital_names s.digitals) _ past_analogs
          (length-digital_names s.digitals v.digitals)

    past_phasor_units :
        drop (pos + 16 * np + 16 * na + 256 * nd + 4 * np) buf
        ≡ channel_units s.analogs ++ (digital_units s.digitals ++ rest)
    past_phasor_units =
        drop-past (pos + 16 * np + 16 * na + 256 * nd) (4 * np) buf (channel_units s.phasors) _
          past_names (length-channel_units s.phasors)

    past_analog_units :
        drop (pos + 16 * np + 16 * na + 256 * nd + 4 * np + 4 * na) buf
        ≡ digital_units s.digitals ++ rest
    past_analog_units =
        drop-past (pos + 16 * np + 16 * na + 256 * nd + 4 * np) (4 * na) buf
          (channel_units s.analogs) _ past_phasor_units (length-channel_units s.analogs)

    pub past_units : drop (pos + 16 * np + 16 * na + 256 * nd + 4 * np + 4 * na + 4 * nd) buf ≡ rest
    past_units =
        drop-past (pos + 16 * np + 16 * na + 256 * nd + 4 * np + 4 * na) (4 * nd) buf
          (digital_units s.digitals) rest past_analog_units (length-digital_units s.digitals)

    module _ (c : Configuration p.Float) (a : Agrees c s) where
      pub prepare_phsor-encode :
          prepare_phsor p c buf pos
          ≡ some (map (phasor_of p (header_of p s).phasor_is_floating_point) s.phasors)
      unfolding prepare_phsor
      prepare_phsor-encode =
          let at : pos + 16 * np + 16 * na + 256 * nd ≡ pos + 16 * np + 16 * (na + 16 * nd) =
            omega arith in
          rw
            (
              a.phasors,
              name_phasors-encode p buf s.phasors pos _ v.phasors e,
              a.analogs,
              a.digitals,
              a.floating,
            )
            (scale_phasors-encode p buf _ s.phasors _ _ v.phasors (rw at at past_names))

      pub prepare_analog-encode :
          prepare_analog p c buf (pos + 16 * np) ≡ some (map (analog_of p) s.analogs)
      unfolding prepare_analog
      prepare_analog-encode =
          let at : pos + 16 * np + 16 * na + 256 * nd + 4 * np
              ≡ pos + 16 * np + 16 * na + (16 * (16 * nd) + 4 * np) =
            omega arith in
          rw
            (
              a.analogs,
              name_analogs-encode p buf s.analogs (pos + 16 * np) _ v.analogs past_phasors,
              a.phasors,
              a.digitals,
            )
            (type_analogs-encode p buf s.analogs _ _ (rw at at past_phasor_units))

      pub prepare_digital-encode :
          prepare_digital p c buf (pos + 16 * np + 16 * na) ≡ some (map digital_of s.digitals)
      unfolding prepare_digital
      prepare_digital-encode =
          let at : pos + 16 * np + 16 * na + 256 * nd + 4 * np + 4 * na
              ≡ pos + 16 * np + 16 * na + 256 * nd + 4 * (np + na) =
            omega arith in
          rw
            (
              a.digitals,
              name_digitals-encode buf s.digitals (pos + 16 * np + 16 * na) _ v.digitals
                  past_analogs,
              a.phasors,
              a.analogs,
            )
            (mask_digitals-encode buf s.digitals _ _ v.digitals (rw at at past_analog_units))
