-- ===== src/Shape.antt =====
-- The arrays of a client against its counts, and the room that a data frame takes.
use khorjin.Prelude.{ℕ, zero, suc, ◌+◌, ◌*◌, ◌≤◌, Bool, List, [], ◌∷◌, All, length, if◌then◌else◌}
use khorjin.Types.{C37118Client, Configuration, Digital}

abbrev pub HasChannels : Digital → Type 0
HasChannels d = 16 ≤ length d.channel

-- The size of a value: `float` or 16 bits.
abbrev pub width : Bool → ℕ
width floating = if floating then 4 else 2

abbrev pub words : ℕ → ℕ → ℕ
words zero size = 0
words (suc n) size = size + words n size

module _ {F : Type 0} where
  -- The arrays of a PMU have at least as many elements as its counts say, and a digital word 16 channels.
  pub record HasArrays (c : Configuration F) : Type 0 where
    pub phasors : c.number_of_phasors ≤ length c.phasor
    pub analogs : c.number_of_analogs ≤ length c.analog
    pub digitals : c.number_of_digitals ≤ length c.digital
    pub channels : All HasChannels c.digital

  -- The client has a structure for every PMU it counts, and each has its arrays.
  pub record IsEquipped (self : C37118Client F) : Type 0 where
    pub num_pmu : self.num_pmu ≤ length self.configuration
    pub pmus : All HasArrays self.configuration

  -- The bytes of a PMU in a data frame, and of all of them.
  abbrev pub pmu_size : Configuration F → ℕ
  pmu_size c =
      2
      + words c.number_of_phasors (2 * width c.phasor_is_floating_point)
      + 2 * width c.freq_is_floating_point
      + words c.number_of_analogs (width c.analog_is_floating_point)
      + words c.number_of_digitals 2

  abbrev pub pmus_size : List (Configuration F) → ℕ
  pmus_size [] = 0
  pmus_size (c ∷ cs) = pmu_size c + pmus_size cs
