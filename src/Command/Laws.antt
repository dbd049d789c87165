-- ===== src/Command/Laws.antt =====
-- The command frames that `write_command` builds.
use khorjin.Prelude.{
  ℕ, ◌/◌, ◌%◌, ◌≡◌, refl, arith, some, List, [], ◌∷◌, ◌++◌, IsByte, IsBytes, IsU16, IsU32, u8, u32,
  replicate, length,
}
use khorjin.Wire.Encode.{store, encode_uint32_fixed_size}
use khorjin.Wire.Crc.{compute_crc}
use khorjin.Wire.Crc.Check.{crc_of, crc_of-IsU16, seal, crc_loop-append}
use khorjin.Wire.Cursor.{be16, be32}
use khorjin.Command.{cleared, write_command}

-- SYNC of a command frame of version 1, FRAMESIZE 18, IDCODE, SOC, FRACSEC, CMD.
abbrev pub command_body : ℕ → ℕ → ℕ → ℕ → List ℕ
command_body id_code soc fracsec command =
    0xAA ∷ 0x41 ∷ 0x00 ∷ 0x12 ∷ be16 id_code ++ (be32 soc ++ (be32 fracsec ++ 0x00 ∷ command ∷ []))

-- The bytes of a buffer behind the frame.
abbrev pub behind : List ℕ
behind = replicate 9982 0

cleared_lem : cleared ≡ replicate 18 0 ++ behind
unfolding cleared
cleared_lem = refl

pub compute_crc-front : (xs rest : List ℕ) → compute_crc (xs ++ rest) (length xs) ≡ some (crc_of xs)
unfolding compute_crc
compute_crc-front xs rest = crc_loop-append xs rest 0xFFFF

pub command_body-IsBytes :
    (id_code soc fracsec command : ℕ)
    → IsU16 id_code
    → IsU32 soc
    → IsU32 fracsec
    → IsByte command
    → IsBytes (command_body id_code soc fracsec command)
command_body-IsBytes id_code soc fracsec command hid hs hf hc = omega arith

frame_over :
    (rest : List ℕ) (id_code time command : ℕ)
    → IsU16 id_code
    → IsByte command
    → write_command (replicate 18 0 ++ rest) id_code time command
      ≡ some (seal (command_body id_code (u32 (time / 1000)) (time % 1000) command) ++ rest)
unfolding write_command store encode_uint32_fixed_size
frame_over rest id_code time command hid hc =
    let body : List ℕ = command_body id_code (u32 (time / 1000)) (time % 1000) command in
    let id : u8 (id_code / 256) ≡ id_code / 256 = omega arith in
    let soc : u32 (time / 1000) / 16777216 % 256 ≡ u32 (time / 1000) / 16777216 = omega arith in
    let small : u32 (time % 1000) ≡ time % 1000 = omega arith in
    let fracsec : time % 1000 / 16777216 % 256 ≡ time % 1000 / 16777216 = omega arith in
    let word : IsU16 (crc_of body) = crc_of-IsU16 body (
      command_body-IsBytes id_code (u32 (time / 1000)) (time % 1000) command hid (omega arith)
        (omega arith) hc) in
    let check : u8 (crc_of body / 256) ≡ crc_of body / 256 = omega arith in
    rw (id, soc, small, fracsec, compute_crc-front body (0 ∷ 0 ∷ rest), check)

-- For an identification code of 16 bits and a command of 8, a cleared send buffer becomes the command
-- frame of the standard with zeros behind it: the identification code, the second and the millisecond
-- of the clock, the command and the checksum.
pub write_command-seal :
    (id_code time command : ℕ)
    → IsU16 id_code
    → IsByte command
    → write_command cleared id_code time command
      ≡ some (seal (command_body id_code (u32 (time / 1000)) (time % 1000) command) ++ behind)
write_command-seal id_code time command hid hc =
    rw cleared_lem (frame_over behind id_code time command hid hc)
