-- ===== src/Tests/Fixture.antt =====
-- A platform, a server and the frames that the examples run on.
use khorjin.Prelude.{
  ℕ, suc, ◌+◌, ◌*◌, ◌/◌, ◌%◌, ◌≡◌, ◌≢◌, refl, Bool, true, false, List, [], ◌∷◌, map, IsBytes,
  replicate, length, ltb, ltb→lt, if◌then◌else◌,
}
use khorjin.Prelude.Int.{ℤ, pos}
use khorjin.Platform.{Platform}
use khorjin.Pal.{Pal}
use khorjin.Types.{C37118Client, zero_time}
use khorjin.Config.Spec.{PmuSpec, configuration_of}
use khorjin.Config.Received.{ConfigFrame, config_body}
use khorjin.DataFrame.Values.{Temps}
use khorjin.DataFrame.Spec.{PmuData}
use khorjin.DataFrame.Whole.{DataFrame, data_body}

-- Numbers stand for floating point numbers.
abbrev pub desk : Platform
desk = record {
  Float = ℕ;
  Double = ℕ;
  float_of_bits = λ w. w;
  float_of_uint = λ n. n;
  float_add = λ x y. x + y;
  float_mul = λ x y. x * y;
  float_div = λ x y. x / suc y;
  widen = λ x. x;
  narrow = λ x. x;
  double_literal = λ m k. m;
  m_pi = 3;
  double_add = λ x y. x + y;
  double_mul = λ x y. x * y;
  double_div = λ x y. x / suc y;
  sqrt = λ x. x;
  pow = λ x y. x * x;
  atan2 = λ y x. y + x;
  localtime = λ n. record {
    tm_sec = n % 60;
    tm_min = n / 60 % 60;
    tm_hour = n / 3600 % 24;
    tm_mday = 1;
    tm_mon = 0;
    tm_year = 70;
  };
}

-- The world is the list of the answers that the server still has; a clock stands at 5250 ms.
abbrev pub Answer : Type 0
Answer = List ℕ × ℤ

abbrev pub next : List ℕ → List Answer → List ℕ × ℤ × List Answer
next buffer [] = (buffer, pos 0, [])
next buffer (a ∷ rest) = (a.0, a.1, rest)

abbrev pub server : Pal
server = record {
  World = List Answer;
  socket_create = λ w. (4, w);
  set_connect_timeout = λ socket timeout w. w;
  socket_connect = λ socket address port w. (true, w);
  socket_read = λ socket buffer size w. next buffer w;
  socket_write = λ socket buffer size w. (pos 18, w);
  socket_destroy = λ socket w. w;
  get_time_in_ms = λ w. (5250, w);
  thread_sleep = λ n w. w;
}

abbrev pub new_self : C37118Client ℕ
new_self = record {
  buffer_snd = [];
  buffer_rcv = [];
  socket = 4;
  idcode = 7;
  num_pmu = 0;
  time_base = 0;
  data_rate = 0;
  config_time_stamp = zero_time desk;
  header_time_stamp = zero_time desk;
  data_time_stamp = zero_time desk;
  configuration = [];
  running = false;
}

abbrev pub name : ℕ → List ℕ
name letter = replicate 16 letter

-- A phasor in the floating point rectangular format, an analog value in 16 bits and a digital word.
abbrev pub substation : ℕ → PmuSpec
substation letter = record {
  station = name letter;
  id_code = 9;
  format = 2;
  phasors = record { name = name 86; kind = 0; factor = 915527 } ∷ [];
  analogs = record { name = name 65; kind = 1; factor = 1 } ∷ [];
  digitals = record { names = replicate 16 (name 68); normal = 0; valid = 65535 } ∷ [];
  fnom = 1;
  cfgcnt = 22;
}

abbrev pub config_frame : ConfigFrame
config_frame = record {
  id_code = 7;
  soc = 1149577200;
  quality = 0x0F;
  fracsec = 463000;
  time_base = 1000000;
  first = substation 83;
  others = substation 84 ∷ [];
  data_rate = 30;
}

abbrev pub config_size : ℕ
config_size = length (config_body config_frame 0)

abbrev pub ready_self : C37118Client ℕ
ready_self = record new_self {
  num_pmu = 2;
  time_base = 1000000;
  configuration = map (configuration_of desk) (substation 83 ∷ substation 84 ∷ []);
}

abbrev pub sample : ℕ → PmuData
sample w = record {
  stat = 0x8000;
  phasors = record { fst_word = w; snd_word = 1000 } ∷ [];
  freq = 2500;
  dfreq = 10;
  analogs = 100 ∷ [];
  digitals = 0x3C12 ∷ [];
}

abbrev pub data_frame : DataFrame
data_frame = record {
  id_code = 7;
  soc = 1149580800;
  quality = 0;
  fracsec = 16817;
  pmus = sample 3000 ∷ sample 3001 ∷ [];
}

abbrev pub data_size : ℕ
data_size = length (data_body ready_self.configuration data_frame 0)

abbrev pub temps : Temps ℕ
temps = record { temp_float_1 = 0; temp_float_2 = 0 }

-- A list of numbers is tested byte by byte.
abbrev pub are_bytes : List ℕ → Bool
are_bytes [] = true
are_bytes (b ∷ bs) = if ltb b 256 then are_bytes bs else false

-- A test passed first, then the rest.
if-both :
    {A B : Type 0} {rest : Bool} (t : Bool)
    → (t ≡ true → A)
    → (rest ≡ true → B)
    → (if t then rest else false) ≡ true
    → A × B
if-both true f g e = (f refl, g e)
if-both false f g e = cc

pub are_bytes-IsBytes : (xs : List ℕ) → are_bytes xs ≡ true → IsBytes xs
are_bytes-IsBytes [] h = tt
are_bytes-IsBytes (b ∷ bs) h =
    if-both (ltb b 256) (λ e. ltb→lt b 256 e) (λ e. are_bytes-IsBytes bs e) h

pub pos-suc : (n : ℕ) → pos (suc n) ≢ pos 0
pos-suc n e = cc
