-- ===== src/Config/TypedArrays.antt =====
-- The arrays of a PMU that are read from bytes, against the types of their fields.
use khorjin.Prelude.{
  ◌≡◌, refl, ap, ◌∙◌, suc, length, ℕ, ◌+◌, ◌/◌, arith, Bool, List, [], ◌∷◌, All, All-replicate,
  replicate, IsBytes, get_elem?, Yields, Yields->>=, Yields->>=_with,
}
use khorjin.Platform.{Platform}
use khorjin.Types.{
  Phasor, Analog, Digital, Channel, Configuration, zero_phasor, zero_analog, zero_digital,
  zero_channel,
}
use khorjin.Typed.{ChannelTyped, DigitalTyped, PhasorTyped, AnalogTyped}
use khorjin.Wire.Decode.{two_byte_to_uint16, three_byte_to_uint32, copy_name}
use khorjin.Wire.Typed.{get_elem?-All, two_byte_to_uint16-IsU16, copy_name-IsText, zeros-IsText}
use khorjin.Config.Prepare.{
  name_phasors, scale_phasors, prepare_phsor, name_analogs, type_analogs, prepare_analog,
  name_channels, name_digitals, enable_channels, mask_digitals, prepare_digital,
}

zero_digital-Typed : DigitalTyped zero_digital
zero_digital-Typed = record {
  channels = refl;
  channel = All-replicate ChannelTyped 16 zero_channel zeros-IsText;
  digital_word = omega arith;
  dg_mask_word = omega arith;
  valid_inputs = omega arith;
}

enable_channels-Typed :
    (word : ℕ) (cs : List Channel)
    → All ChannelTyped cs
    → All ChannelTyped (enable_channels word cs)
unfolding enable_channels
enable_channels-Typed word [] h = tt
enable_channels-Typed word (c ∷ cs) h = (h.0, enable_channels-Typed (word / 2) cs h.1)

pub length-enable_channels :
    (word : ℕ) (cs : List Channel) → length (enable_channels word cs) ≡ length cs
unfolding enable_channels
length-enable_channels word [] = refl
length-enable_channels word (c ∷ cs) = ap suc (length-enable_channels (word / 2) cs)

module _ (p : Platform) (buf : List ℕ) (bytes : IsBytes buf) where
  name_phasors-Typed :
      (xs : List (Phasor p.Float)) (pos : ℕ)
      → Yields (λ r. All PhasorTyped r.0) (name_phasors p xs buf pos)
  unfolding name_phasors
  name_phasors-Typed [] pos = Yields.gives tt
  name_phasors-Typed (x ∷ xs) pos =
      Yields->>=_with _ (copy_name buf pos) _ (copy_name-IsText buf pos bytes) λ name t.
        Yields->>=_with _ (name_phasors p xs buf (pos + 16)) _ (name_phasors-Typed xs (pos + 16))
          λ r h. Yields.gives (t, h)

  scale_phasors-Typed :
      (floating : Bool) (xs : List (Phasor p.Float)) (pos : ℕ)
      → All PhasorTyped xs
      → Yields (λ ys. All PhasorTyped ys) (scale_phasors p floating xs buf pos)
  unfolding scale_phasors
  scale_phasors-Typed floating [] pos h = Yields.gives tt
  scale_phasors-Typed floating (x ∷ xs) pos h = Yields->>= _ (get_elem? buf pos) _ λ kind.
      Yields->>= _ (three_byte_to_uint32 buf (pos + 1)) _ λ unit.
        Yields->>=_with _ (scale_phasors p floating xs buf unit.1) _
          (scale_phasors-Typed floating xs unit.1 h.1) λ ys k. Yields.gives (h.0, k)

  pub prepare_phsor-Typed :
      (c : Configuration p.Float) (pos : ℕ)
      → Yields (λ xs. All PhasorTyped xs) (prepare_phsor p c buf pos)
  unfolding prepare_phsor
  prepare_phsor-Typed c pos =
      Yields->>=_with _ (name_phasors p (replicate c.number_of_phasors (zero_phasor p)) buf pos) _
        (name_phasors-Typed _ pos) λ r h. scale_phasors-Typed c.phasor_is_floating_point r.0 _ h

  name_analogs-Typed :
      (xs : List (Analog p.Float)) (pos : ℕ)
      → All AnalogTyped xs
      → Yields (λ r. All AnalogTyped r.0) (name_analogs p xs buf pos)
  unfolding name_analogs
  name_analogs-Typed [] pos v = Yields.gives tt
  name_analogs-Typed (x ∷ xs) pos v =
      Yields->>=_with _ (copy_name buf pos) _ (copy_name-IsText buf pos bytes) λ name t.
        Yields->>=_with _ (name_analogs p xs buf (pos + 16)) _
          (name_analogs-Typed xs (pos + 16) v.1)
          λ r h. Yields.gives (record { channel_name = t; analog_type = v.0.analog_type }, h)

  type_analogs-Typed :
      (xs : List (Analog p.Float)) (pos : ℕ)
      → All AnalogTyped xs
      → Yields (λ ys. All AnalogTyped ys) (type_analogs p xs buf pos)
  unfolding type_analogs
  type_analogs-Typed [] pos h = Yields.gives tt
  type_analogs-Typed (x ∷ xs) pos h =
      Yields->>=_with _ (get_elem? buf pos) _ (get_elem?-All buf pos bytes) λ kind b.
        Yields->>=_with _ (type_analogs p xs buf (pos + 4)) _ (type_analogs-Typed xs (pos + 4) h.1)
          λ ys k. Yields.gives (record { channel_name = h.0.channel_name; analog_type = b }, k)

  pub prepare_analog-Typed :
      (c : Configuration p.Float) (pos : ℕ)
      → Yields (λ xs. All AnalogTyped xs) (prepare_analog p c buf pos)
  unfolding prepare_analog
  prepare_analog-Typed c pos =
      Yields->>=_with _ (name_analogs p (replicate c.number_of_analogs (zero_analog p)) buf pos) _
        (name_analogs-Typed _ pos (
          All-replicate AnalogTyped c.number_of_analogs (zero_analog p)
            (record { channel_name = zeros-IsText; analog_type = omega arith })))
        λ r h. type_analogs-Typed r.0 _ h

  name_channels-Typed :
      (cs : List Channel) (pos : ℕ)
      → Yields (λ r. All ChannelTyped r.0 × (length r.0 ≡ length cs)) (name_channels cs buf pos)
  unfolding name_channels
  name_channels-Typed [] pos = Yields.gives (tt, refl)
  name_channels-Typed (c ∷ cs) pos =
      Yields->>=_with _ (copy_name buf pos) _ (copy_name-IsText buf pos bytes) λ name t.
        Yields->>=_with _ (name_channels cs buf (pos + 16)) _ (name_channels-Typed cs (pos + 16))
          λ r h. Yields.gives ((t, h.0), ap suc h.1)

  name_digitals-Typed :
      (ds : List Digital) (pos : ℕ)
      → All DigitalTyped ds
      → Yields (λ r. All DigitalTyped r.0) (name_digitals ds buf pos)
  unfolding name_digitals
  name_digitals-Typed [] pos v = Yields.gives tt
  name_digitals-Typed (d ∷ ds) pos v =
      Yields->>=_with _ (name_channels d.channel buf pos) _ (name_channels-Typed d.channel pos)
        λ cs t.
          Yields->>=_with _ (name_digitals ds buf cs.1) _ (name_digitals-Typed ds cs.1 v.1) λ r h.
            Yields.gives (
              record {
                channels = t.1 ∙ v.0.channels;
                channel = t.0;
                digital_word = v.0.digital_word;
                dg_mask_word = v.0.dg_mask_word;
                valid_inputs = v.0.valid_inputs;
              },
              h,
            )

  mask_digitals-Typed :
      (ds : List Digital) (pos : ℕ)
      → All DigitalTyped ds
      → Yields (λ es. All DigitalTyped es) (mask_digitals ds buf pos)
  unfolding mask_digitals
  mask_digitals-Typed [] pos v = Yields.gives tt
  mask_digitals-Typed (d ∷ ds) pos v =
      Yields->>=_with _ (two_byte_to_uint16 buf pos) _ (two_byte_to_uint16-IsU16 buf pos) λ m hm.
        Yields->>=_with _ (two_byte_to_uint16 buf m.1) _ (two_byte_to_uint16-IsU16 buf m.1) λ n hn.
          Yields->>=_with _ (mask_digitals ds buf n.1) _ (mask_digitals-Typed ds n.1 v.1) λ es h.
            Yields.gives (
              record {
                channels = length-enable_channels n.0 d.channel ∙ v.0.channels;
                channel = enable_channels-Typed n.0 d.channel v.0.channel;
                digital_word = v.0.digital_word;
                dg_mask_word = hm;
                valid_inputs = hn;
              },
              h,
            )

  pub prepare_digital-Typed :
      (c : Configuration p.Float) (pos : ℕ)
      → Yields (λ ds. All DigitalTyped ds) (prepare_digital p c buf pos)
  unfolding prepare_digital
  prepare_digital-Typed c pos =
      Yields->>=_with _ (name_digitals (replicate c.number_of_digitals zero_digital) buf pos) _
        (name_digitals-Typed _ pos
          (All-replicate DigitalTyped c.number_of_digitals zero_digital zero_digital-Typed))
        λ r h. mask_digitals-Typed r.0 _ h
