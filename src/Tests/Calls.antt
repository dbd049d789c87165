-- ===== src/Tests/Calls.antt =====
-- Examples on the calls that talk to the server.
use khorjin.Prelude.{ℕ, ◌+◌, ◌/◌, ◌%◌, ◌≡◌, refl, arith, false, some, List, [], ◌∷◌, ◌++◌}
use khorjin.Prelude.Int.{pos, negsuc}
use khorjin.Pal.{returns, fault}
use khorjin.Wire.Crc.{crc_check}
use khorjin.Wire.Crc.Check.{crc_of, seal}
use khorjin.Wire.Crc.Detect.{crc_check_one_byte}
use khorjin.Command.{cleared}
use khorjin.Config.Received.{config_body, configured}
use khorjin.DataFrame.Whole.{data_body, measured}
use khorjin.Client.Stream.{value, get_configuration, get_data_stream}
use khorjin.Client.StreamLaws.{
  Delivers, sent, get_configuration-frame, get_data_stream-frame, get_data_stream-corrupt,
  get_data_stream-closed,
}
use khorjin.Client.Stream.{no_value}
use khorjin.Client.RefusalLaws.{get_configuration-corrupt}
use khorjin.Tests.Fixture.{
  desk, server, Answer, new_self, config_frame, config_size, ready_self, data_frame, data_size,
  temps, are_bytes-IsBytes, pos-suc,
}
use khorjin.Tests.Frames.{frame-IsConfigFrame, others-Agrees, ready-IsDataFrame}

abbrev config_bytes : List ℕ
config_bytes = seal (config_body config_frame (config_size + 2)) ++ []

-- One poll without data, then the frame.
abbrev config_answers : List Answer
config_answers = (cleared, pos 0) ∷ (config_bytes, pos (config_size + 2)) ∷ []

get_configuration-frame_example :
    get_configuration desk server 3 new_self config_answers
    ≡ returns (
      configured desk config_frame
          (record new_self { buffer_snd = sent 5 7 5250; buffer_rcv = config_bytes }),
      value (pos 0),
      [],
    )
get_configuration-frame_example =
    get_configuration-frame desk server new_self config_answers config_answers config_answers 5250
      (pos 18) (omega arith) refl 3 1 config_size config_frame [] [] frame-IsConfigFrame
      others-Agrees refl (omega arith)
      (are_bytes-IsBytes (config_body config_frame (config_size + 2)) refl) refl refl
      (Delivers.later refl (Delivers.now (pos-suc (config_size + 1)) refl)) (omega arith)

abbrev data_bytes : List ℕ
data_bytes = seal (data_body ready_self.configuration data_frame (data_size + 2)) ++ []

get_data_stream-frame_example :
    get_data_stream desk server 1 temps ready_self ((data_bytes, pos (data_size + 2)) ∷ [])
    ≡ returns (
      measured desk data_frame temps (record ready_self { buffer_rcv = data_bytes }),
      value (pos 0),
      [],
    )
get_data_stream-frame_example =
    get_data_stream-frame desk server ready_self ((data_bytes, pos (data_size + 2)) ∷ []) [] 1 0
      temps (omega arith) data_size data_frame [] ready-IsDataFrame refl (omega arith)
      (are_bytes-IsBytes (data_body ready_self.configuration data_frame (data_size + 2)) refl)
      (Delivers.now (pos-suc (data_size + 1)) refl)

-- The message AA 01 34 with its checksum, whose second byte arrives as 02.
abbrev corrupt : List ℕ
corrupt =
    (0xAA ∷ [] ++ 0x02 ∷ 0x34 ∷ [])
    ++ (crc_of (0xAA ∷ 0x01 ∷ 0x34 ∷ []) / 256) ∷ (crc_of (0xAA ∷ 0x01 ∷ 0x34 ∷ []) % 256) ∷ []

corrupt_lem : crc_check corrupt (pos 5) ≡ some false
corrupt_lem =
    crc_check_one_byte (0xAA ∷ []) (0x34 ∷ []) [] 0x01 0x02 3 (omega arith) (omega arith)
      (omega arith) (omega arith) (omega arith) refl (omega arith)

get_data_stream-corrupt_example :
    get_data_stream desk server 1 temps ready_self ((corrupt, pos 5) ∷ [])
    ≡ returns (record ready_self { buffer_rcv = corrupt }, value (negsuc 0), [])
get_data_stream-corrupt_example =
    get_data_stream-corrupt desk server ready_self ((corrupt, pos 5) ∷ []) [] 1 0 temps
      (omega arith) corrupt (pos 5) corrupt_lem (Delivers.now (pos-suc 4) refl)

get_data_stream-closed_example :
    get_data_stream desk server 1 temps ready_self ((cleared, negsuc 0) ∷ []) ≡ fault
get_data_stream-closed_example =
    get_data_stream-closed desk server ready_self ((cleared, negsuc 0) ∷ []) [] 1 0 temps
      (omega arith) cleared 0 (Delivers.now (λ e. cc) refl)

get_configuration-corrupt_example :
    get_configuration desk server 1 new_self ((corrupt, pos 5) ∷ [])
    ≡ returns (record new_self { buffer_snd = sent 5 7 5250; buffer_rcv = corrupt }, no_value, [])
get_configuration-corrupt_example =
    get_configuration-corrupt desk server new_self ((corrupt, pos 5) ∷ []) ((corrupt, pos 5) ∷ [])
      ((corrupt, pos 5) ∷ []) [] 5250 1 0 (pos 18) (omega arith) refl refl (omega arith) corrupt
      (pos 5) corrupt_lem (Delivers.now (pos-suc 4) refl)
