-- ===== src/Client/Session.antt =====
-- `c37_118client_connect` and `c37_118client_destroy`.
use khorjin.Prelude.{
  ℕ, zero, suc, ◌+◌, ◌-◌, ◌*◌, ◌/◌, ◌^◌, Bool, true, false, Option, none, some, List, [], ◌∷◌, ◌++◌,
  u16, u32, ltb, ◌==◌, if◌then◌else◌, get_elem?,
}
use khorjin.Prelude.Int.{ℤ, uint32}
use khorjin.Platform.{Platform, ParsedTime}
use khorjin.Pal.{Pal, Call, waiting, returns, ◌>>=◌, access}
use khorjin.Print.{Line, uint, chars}
use khorjin.Types.{C37118Client, Configuration, zero_time}

-- `PMUConnectionData`
pub record PmuConnectionData : Type 0 where
  pub ip_address_pmu_server : List ℕ
  pub pmu_port_number : ℤ
  pub pmu_id_code : ℤ

-- `(int)pow((double)2, count) * timeoutInMs`. The conversion is defined below 2 ^ 31, and the product
-- is one of `uint32_t`.
unfoldable pub backoff : ℕ → ℕ → Option ℕ
backoff count timeout = if ltb count 31 then some (u32 (2 ^ count * timeout)) else none

-- `newTimeoutInMs / 1000`, a quotient of `int`, printed as an unsigned number.
unfoldable pub seconds_of : ℕ → ℕ
seconds_of new_timeout =
    if ltb new_timeout 0x80000000
    then new_timeout / 1000
    else u32 (0x100000000 - (0x100000000 - new_timeout) / 1000)

-- A block of memory that the client owns.
pub data Block : Type 0 where
  receive_buffer send_buffer config_calendar data_calendar : Block
  phasors analogs digitals : ℕ → Block
  configurations client_structure : Block

module _ (p : Platform) (pal : Pal) where
  -- The structure from `calloc` and its two buffers from `malloc`, whose bytes are not determined.
  unfoldable pub new_client : List ℕ → List ℕ → ℕ → ℕ → C37118Client p.Float
  new_client send receive idcode socket = record {
    buffer_snd = send;
    buffer_rcv = receive;
    socket = socket;
    idcode = idcode;
    num_pmu = 0;
    time_base = 0;
    data_rate = 0;
    config_time_stamp = zero_time p;
    header_time_stamp = zero_time p;
    data_time_stamp = zero_time p;
    configuration = [];
    running = false;
  }

  abbrev pub tried :
      (pal.World → Call (List (Line p.Float) × pal.World))
      → Bool × pal.World
      → Call (List (Line p.Float) × pal.World)
  tried again (true, w) = returns ([], w)
  tried again (false, w) = again w

  -- What is printed about a failed attempt.
  unfoldable pub failed_line : ℕ → Line p.Float
  failed_line new_timeout = record {
    format = "Failed to connect. Try to reconnect in %u seconds.\n";
    args = uint (seconds_of new_timeout) ∷ [];
  }

  -- The loop on `Socket_connect`, in at most `rounds` attempts: what it prints, and the world.
  unfoldable pub connect_loop :
      ℕ → ℕ → PmuConnectionData → ℕ → ℕ → pal.World → Call (List (Line p.Float) × pal.World)
  connect_loop zero socket parameters timeout count w = waiting
  connect_loop (suc rounds) socket parameters timeout count w =
      tried
        (λ u. access (backoff count timeout) >>= λ t.
          connect_loop rounds socket parameters timeout (count + 1)
            (pal.set_connect_timeout socket t u)
          >>= λ r. returns (failed_line t ∷ r.0, r.1))
        (pal.socket_connect socket parameters.ip_address_pmu_server parameters.pmu_port_number w)

  unfoldable pub greeting : PmuConnectionData → List (Line p.Float)
  greeting parameters =
      record { format = "Start to establish connection with PMU/PDC Server...\n"; args = [] }
      ∷ record {
        format = "IP : %s, Port:%u\n\n";
        args =
            chars parameters.ip_address_pmu_server ∷ uint (uint32 parameters.pmu_port_number) ∷ [];
      }
      ∷ []

  unfoldable pub connect :
      ℕ
      → List ℕ
      → List ℕ
      → PmuConnectionData
      → ℕ
      → pal.World
      → Call (List (Line p.Float) × C37118Client p.Float × pal.World)
  connect rounds send receive parameters timeout w =
      let (socket, w') = pal.socket_create w in
      connect_loop rounds socket parameters timeout 0 (pal.set_connect_timeout socket timeout w')
      >>= λ r. returns (
        greeting parameters ++ r.0,
        new_client send receive (u16 (uint32 parameters.pmu_id_code)) socket,
        r.1,
      )

  unfoldable pub calendar : Block → Option (ParsedTime p.Float) → List Block
  calendar b none = []
  calendar b (some t) = b ∷ []

  -- The three arrays of PMU `i` in front of what the rest of the loop frees.
  abbrev pub freed : ℕ → Option (Configuration p.Float) → Option (List Block) → Option (List Block)
  freed i none rest = none
  freed i (some c) none = none
  freed i (some c) (some blocks) = some (phasors i ∷ analogs i ∷ digitals i ∷ blocks)

  abbrev pub and_configurations : Option (List Block) → Option (List Block)
  and_configurations none = none
  and_configurations (some blocks) = some (blocks ++ configurations ∷ [])

  -- `rounds` is `numPmu - i`.
  unfoldable pub free_arrays : ℕ → ℕ → List (Configuration p.Float) → Option (List Block)
  free_arrays zero i configuration = some []
  free_arrays (suc rounds) i configuration =
      freed i (get_elem? configuration i) (free_arrays rounds (i + 1) configuration)

  unfoldable pub free_configuration : C37118Client p.Float → Option (List Block)
  free_configuration self =
      if self.num_pmu == 0
      then some []
      else and_configurations (free_arrays self.num_pmu 0 self.configuration)

  -- The blocks that are freed, in the order of the calls.
  unfoldable pub destroy : C37118Client p.Float → pal.World → Call (List Block × pal.World)
  destroy self w = do
    blocks ← access (free_configuration self)
    returns (
      receive_buffer ∷ send_buffer ∷ calendar config_calendar self.config_time_stamp.parsed_time
          ++ (calendar data_calendar self.data_time_stamp.parsed_time
              ++ (blocks ++ client_structure ∷ [])),
      pal.socket_destroy self.socket w,
    )
