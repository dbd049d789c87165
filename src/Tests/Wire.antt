-- ===== src/Tests/Wire.antt =====
-- Examples on the checksum and the command frames.
use khorjin.Prelude.{
  ℕ, ◌+◌, ◌*◌, ◌/◌, ◌%◌, ◌≡◌, ◌↔◌, ◌≤◌, ◌<◌, ◌^◌, refl, arith, false, some, List, [], ◌∷◌, ◌++◌,
  ◌==◌,
}
use khorjin.Prelude.Int.{pos}
use khorjin.Wire.Crc.{compute_crc, crc_check}
use khorjin.Wire.Crc.Check.{serial_from, crc_of, seal, compute_crc-serial, crc_check-compares}
use khorjin.Wire.Crc.Burst.{crc_check_two_bytes}
use khorjin.Wire.Decode.{two_byte_to_uint16, four_byte_to_uint32}
use khorjin.Wire.Encode.{encode_uint32_fixed_size, encode_uint16_fixed_size}
use khorjin.Wire.Cursor.{be16, be32}
use khorjin.Wire.RoundTrip.{encode_uint32_fixed_size-four_byte}
use khorjin.Types.{Time, zero_time}
use khorjin.TimeStamp.{parse_time_stamp}
use khorjin.TimeStamp.Laws.{encode_stamp}
use khorjin.TimeStamp.Bounds.{parse_time_stamp-within}
use khorjin.Tests.Fixture.{desk}
use khorjin.Command.{cleared, write_command}
use khorjin.Command.Laws.{command_body, behind, write_command-seal}

abbrev message : List ℕ
message = 0xAA ∷ 0x01 ∷ 0x34 ∷ []

compute_crc-serial_example : compute_crc (message ++ 9 ∷ []) 3 ≡ some (serial_from 0xFFFF message)
compute_crc-serial_example = compute_crc-serial message (9 ∷ []) (omega arith)

crc_check-compares_example :
    crc_check (message ++ 1 ∷ 2 ∷ []) (pos 5) ≡ some (crc_of message == 1 * 256 + 2)
crc_check-compares_example =
    crc_check-compares message [] 1 2 3 refl (omega arith) (omega arith) (omega arith)

crc_check_two_bytes_example :
    crc_check
      ((0xAA ∷ [] ++ 0x02 ∷ 0x35 ∷ []) ++ (crc_of message / 256) ∷ (crc_of message % 256) ∷ [])
      (pos 5)
    ≡ some false
crc_check_two_bytes_example =
    crc_check_two_bytes (0xAA ∷ []) [] [] 0x01 0x34 0x02 0x35 3 (omega arith) tt (omega arith)
      (omega arith) (omega arith) (omega arith) (λ (e, f). absurd (omega (arith, e))) refl
      (omega arith)

write_command-seal_example :
    write_command cleared 7 5250 5 ≡ some (seal (command_body 7 5 250 5) ++ behind)
write_command-seal_example = write_command-seal 7 5250 5 (omega arith) (omega arith)

encode_uint32_fixed_size-four_byte_example :
    ((buffer : List ℕ) × (encode_uint32_fixed_size 1149577200 (1 ∷ 2 ∷ 3 ∷ 4 ∷ 5 ∷ 6 ∷ []) 1
        ≡ some (buffer, 5))
      × (buffer ≡ 1 ∷ be32 1149577200 ++ 6 ∷ [])
      × (four_byte_to_uint32 buffer 1 ≡ some (1149577200, 5)))
    × ((buffer : List ℕ) × (encode_uint16_fixed_size 463 (1 ∷ 2 ∷ 3 ∷ 6 ∷ []) 1 ≡ some (buffer, 3))
        × (buffer ≡ 1 ∷ be16 463 ++ 6 ∷ [])
        × (two_byte_to_uint16 buffer 1 ≡ some (463, 3)))
encode_uint32_fixed_size-four_byte_example =
    encode_uint32_fixed_size-four_byte (1 ∷ []) (6 ∷ []) 2 3 4 5 1149577200 463 (omega arith)
      (omega arith)

-- 463 ms in a time base of 1000000, parsed with a time base of 1000 as in the configuration frame.
parse_time_stamp-within_example :
    (t' : Time ℕ) × (parse_time_stamp desk
        (zero_time desk)
        1000
        (encode_stamp 1149577200 15 463000 ++ [])
        0
      ≡ some (t', 8))
    × (t'.second_of_cenctury ≡ 1149577200)
    × (t'.time_value_in_ms ≡ 1149577663000)
    × (1149577200000 ≤ t'.time_value_in_ms)
    × ((t'.time_value_in_ms < 1149577201000) ↔ (463000 < 1000))
    × (t'.time_value_in_ms < 2 ^ 42)
parse_time_stamp-within_example =
    parse_time_stamp-within desk (zero_time desk) 1000 (encode_stamp 1149577200 15 463000 ++ []) 0
      1149577200 15 463000 [] (omega arith) (omega arith) (omega arith) refl
