-- ===== src/Config/Arrays.antt =====
-- `preparePhsor`, `prepareAnalog` and `prepareDigital` on an encoded PMU.
use khorjin.Prelude.{
  ℕ, ◌+◌, ◌*◌, ◌≡◌, refl, ap, ◌∙◌, arith, Bool, some, List, [], ◌∷◌, ◌++◌, map, All, length,
  length-append, replicate, drop, drop-past, append_assoc,
}
use khorjin.Platform.{Platform}
use khorjin.Types.{zero_phasor, zero_analog, zero_digital, zero_channel}
use khorjin.Wire.Cursor.{be16, be24, copy_name-at, byte-at, three_byte-be24, two_byte-be16}
use khorjin.Config.Prepare.{
  name_phasors, scale_phasors, name_analogs, type_analogs, name_channels, name_digitals,
  mask_digitals,
}
use khorjin.Config.Leaves.{phasor_kind_lem, phasor_factor_lem, enable_channels_lem}
use khorjin.Config.Spec.{
  ChannelSpec, DigitalSpec, IsName, IsChannel, IsDigital, encode_names, channel_names,
  channel_units, digital_names, digital_units, named_channel, named_digital, digital_of,
  named_phasor, phasor_of, named_analog, analog_of,
}

pub length-channel_names :
    (ss : List ChannelSpec) → All IsChannel ss → length (channel_names ss) ≡ 16 * length ss
length-channel_names [] h = refl
length-channel_names (s ∷ ss) h =
    omega (arith, length-append s.name (channel_names ss), length-channel_names ss h.1, h.0.0)

pub length-channel_units : (ss : List ChannelSpec) → length (channel_units ss) ≡ 4 * length ss
length-channel_units [] = refl
length-channel_units (s ∷ ss) = omega (arith, length-channel_units ss)

length-encode_names :
    (ns : List (List ℕ)) → All IsName ns → length (encode_names ns) ≡ 16 * length ns
length-encode_names [] h = refl
length-encode_names (n ∷ ns) h =
    omega (arith, length-append n (encode_names ns), length-encode_names ns h.1, h.0)

pub length-digital_names :
    (ss : List DigitalSpec) → All IsDigital ss → length (digital_names ss) ≡ 256 * length ss
length-digital_names [] h = refl
length-digital_names (s ∷ ss) h = omega (
  arith,
  length-append (encode_names s.names) (digital_names ss),
  length-encode_names s.names h.0.1,
  length-digital_names ss h.1,
  h.0.0,
)

pub length-digital_units : (ss : List DigitalSpec) → length (digital_units ss) ≡ 4 * length ss
length-digital_units [] = refl
length-digital_units (s ∷ ss) = omega (arith, length-digital_units ss)

module _ (p : Platform) (buf : List ℕ) where
  pub name_phasors-encode :
      (ss : List ChannelSpec) (pos : ℕ) (rest : List ℕ)
      → All IsChannel ss
      → drop pos buf ≡ channel_names ss ++ rest
      → name_phasors p (replicate (length ss) (zero_phasor p)) buf pos
        ≡ some (map (named_phasor p) ss, pos + 16 * length ss)
  unfolding name_phasors
  name_phasors-encode [] pos rest h e = ap (λ q. some ([], q)) (omega arith)
  name_phasors-encode (s ∷ ss) pos rest h e =
      let e' : drop pos buf ≡ s.name ++ (channel_names ss ++ rest) =
        e ∙ append_assoc s.name (channel_names ss) rest in
      rw
        (
          copy_name-at buf pos s.name (channel_names ss ++ rest) h.0.0 e',
          name_phasors-encode ss (pos + 16) rest h.1
              (drop-past pos 16 buf s.name (channel_names ss ++ rest) e' h.0.0),
        )
        (ap (λ q. some (named_phasor p s ∷ map (named_phasor p) ss, q)) (omega arith))

  pub scale_phasors-encode :
      (floating : Bool) (ss : List ChannelSpec) (pos : ℕ) (rest : List ℕ)
      → All IsChannel ss
      → drop pos buf ≡ channel_units ss ++ rest
      → scale_phasors p floating (map (named_phasor p) ss) buf pos
        ≡ some (map (phasor_of p floating) ss)
  unfolding scale_phasors
  scale_phasors-encode floating [] pos rest h e = refl
  scale_phasors-encode floating (s ∷ ss) pos rest h e =
      let after : drop (pos + 1) buf ≡ be24 s.factor ++ (channel_units ss ++ rest) =
        drop-past pos 1 buf (s.kind ∷ []) _ e refl in
      rw (
        byte-at buf pos _ s.kind e,
        phasor_kind_lem p s.kind,
        three_byte-be24 buf (pos + 1) s.factor (channel_units ss ++ rest) h.0.1 after,
        phasor_factor_lem p floating s.factor,
        scale_phasors-encode floating ss (pos + 1 + 3) rest h.1
            (drop-past (pos + 1) 3 buf (be24 s.factor) _ after refl),
      )

  pub name_analogs-encode :
      (ss : List ChannelSpec) (pos : ℕ) (rest : List ℕ)
      → All IsChannel ss
      → drop pos buf ≡ channel_names ss ++ rest
      → name_analogs p (replicate (length ss) (zero_analog p)) buf pos
        ≡ some (map (named_analog p) ss, pos + 16 * length ss)
  unfolding name_analogs
  name_analogs-encode [] pos rest h e = ap (λ q. some ([], q)) (omega arith)
  name_analogs-encode (s ∷ ss) pos rest h e =
      let e' : drop pos buf ≡ s.name ++ (channel_names ss ++ rest) =
        e ∙ append_assoc s.name (channel_names ss) rest in
      rw
        (
          copy_name-at buf pos s.name (channel_names ss ++ rest) h.0.0 e',
          name_analogs-encode ss (pos + 16) rest h.1
              (drop-past pos 16 buf s.name (channel_names ss ++ rest) e' h.0.0),
        )
        (ap (λ q. some (named_analog p s ∷ map (named_analog p) ss, q)) (omega arith))

  pub type_analogs-encode :
      (ss : List ChannelSpec) (pos : ℕ) (rest : List ℕ)
      → drop pos buf ≡ channel_units ss ++ rest
      → type_analogs p (map (named_analog p) ss) buf pos ≡ some (map (analog_of p) ss)
  unfolding type_analogs
  type_analogs-encode [] pos rest e = refl
  type_analogs-encode (s ∷ ss) pos rest e = rw (
    byte-at buf pos _ s.kind e,
    type_analogs-encode ss (pos + 4) rest
        (drop-past pos 4 buf (s.kind ∷ be24 s.factor) (channel_units ss ++ rest) e refl),
  )

module _ (buf : List ℕ) where
  name_channels-encode :
      (ns : List (List ℕ)) (pos : ℕ) (rest : List ℕ)
      → All IsName ns
      → drop pos buf ≡ encode_names ns ++ rest
      → name_channels (replicate (length ns) zero_channel) buf pos
        ≡ some (map named_channel ns, pos + 16 * length ns)
  unfolding name_channels
  name_channels-encode [] pos rest h e = ap (λ q. some ([], q)) (omega arith)
  name_channels-encode (n ∷ ns) pos rest h e =
      let e' : drop pos buf ≡ n ++ (encode_names ns ++ rest) =
        e ∙ append_assoc n (encode_names ns) rest in
      rw
        (
          copy_name-at buf pos n (encode_names ns ++ rest) h.0 e',
          name_channels-encode ns (pos + 16) rest h.1
              (drop-past pos 16 buf n (encode_names ns ++ rest) e' h.0),
        )
        (ap (λ q. some (named_channel n ∷ map named_channel ns, q)) (omega arith))

  pub name_digitals-encode :
      (ss : List DigitalSpec) (pos : ℕ) (rest : List ℕ)
      → All IsDigital ss
      → drop pos buf ≡ digital_names ss ++ rest
      → name_digitals (replicate (length ss) zero_digital) buf pos
        ≡ some (map named_digital ss, pos + 256 * length ss)
  unfolding name_digitals
  name_digitals-encode [] pos rest h e = ap (λ q. some ([], q)) (omega arith)
  name_digitals-encode (s ∷ ss) pos rest h e =
      let e' : drop pos buf ≡ encode_names s.names ++ (digital_names ss ++ rest) =
        e ∙ append_assoc (encode_names s.names) (digital_names ss) rest in
      let names : name_channels (replicate 16 zero_channel) buf pos
          ≡ some (map named_channel s.names, pos + 256) =
        rw h.0.0 at (name_channels-encode s.names pos (digital_names ss ++ rest) h.0.1 e') in
      rw
        (
          names,
          name_digitals-encode ss (pos + 256) rest h.1 (
              drop-past pos 256 buf (encode_names s.names) _ e'
                (omega (arith, length-encode_names s.names h.0.1, h.0.0))),
        )
        (ap (λ q. some (named_digital s ∷ map named_digital ss, q)) (omega arith))

  pub mask_digitals-encode :
      (ss : List DigitalSpec) (pos : ℕ) (rest : List ℕ)
      → All IsDigital ss
      → drop pos buf ≡ digital_units ss ++ rest
      → mask_digitals (map named_digital ss) buf pos ≡ some (map digital_of ss)
  unfolding mask_digitals
  mask_digitals-encode [] pos rest h e = refl
  mask_digitals-encode (s ∷ ss) pos rest h e =
      let after : drop (pos + 2) buf ≡ be16 s.valid ++ (digital_units ss ++ rest) =
        drop-past pos 2 buf (be16 s.normal) _ e refl in
      rw (
        two_byte-be16 buf pos s.normal _ h.0.2 e,
        two_byte-be16 buf (pos + 2) s.valid (digital_units ss ++ rest) h.0.3 after,
        enable_channels_lem s.valid s.names,
        mask_digitals-encode ss (pos + 2 + 2) rest h.1
            (drop-past (pos + 2) 2 buf (be16 s.valid) _ after refl),
      )
