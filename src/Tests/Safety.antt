-- ===== src/Tests/Safety.antt =====
-- Examples on what the parsers and the receiver loop do to the arrays.
use khorjin.Prelude.{
  ℕ, ◌+◌, ◌<◌, ◌≤◌, ◌≡◌, refl, arith, true, false, List, [], ◌∷◌, ◌++◌, length, length-replicate,
  replicate, ◌↔◌,
}
use khorjin.Prelude.Int.{pos}
use khorjin.Prelude.Outcome
use khorjin.Pal.{Pal, fault}
use khorjin.Wire.Cursor.{be16, be32}
use khorjin.Wire.Decode.{two_byte_to_uint16}
use khorjin.Wire.Crc.Check.{seal, crc_check-seal}
use khorjin.TimeStamp.Laws.{encode_stamp}
use khorjin.Checks.{IsAddressed}
use khorjin.Config.Frame.{parse_configuration_frame}
use khorjin.Config.Overrun.{parse_configuration_frame-overrun}
use khorjin.DataFrame.Whole.{data_body}
use khorjin.DataFrame.Frame.{parse_data_frame}
use khorjin.DataFrame.Total.{IsReady}
use khorjin.DataFrame.Safe.{parse_data_frame-fault}
use khorjin.Print.Totals.{configured-IsEquipped}
use khorjin.Command.{bufer_length}
use khorjin.Client.Stream.{receiver_loop}
use khorjin.Client.StreamLaws.{Delivers}
use khorjin.Wire.Crc.{crc_check}
use khorjin.Example.{main_loop}
use khorjin.Example.Safe.{main_loop-undated}
use khorjin.Client.Safe.{ReadsWell, receiver_loop-Safe}
use khorjin.Tests.Fixture.{
  desk, server, new_self, ready_self, config_frame, data_frame, data_size, temps, are_bytes-IsBytes,
  pos-suc,
}
use khorjin.Tests.Frames.{frame-IsConfigFrame}

abbrev data_bytes : List ℕ
data_bytes = seal (data_body ready_self.configuration data_frame (data_size + 2)) ++ []

ready_self-IsReady : (size : ℕ) → 50 ≤ size → IsReady size ready_self
ready_self-IsReady size h = record {
  equipped = record {
    num_pmu = omega arith;
    pmus = (configured-IsEquipped desk new_self config_frame frame-IsConfigFrame).pmus;
  };
  fits = omega arith;
}

parse_data_frame-fault_example :
    (parse_data_frame desk ready_self temps data_bytes (pos 1) ≡ Outcome.fault) ↔ (1 < 2)
parse_data_frame-fault_example =
    parse_data_frame-fault desk ready_self temps data_bytes (ready_self-IsReady _ (omega arith)) 1
      (omega arith)

-- A server that sends five bytes on every read, the first of which changes.
abbrev pub first_byte : ℕ → List ℕ → List ℕ
first_byte a [] = []
first_byte a (x ∷ xs) = a ∷ xs

abbrev talker : Pal
talker = record server {
  World = ℕ;
  socket_create = λ w. (4, w);
  set_connect_timeout = λ socket timeout w. w;
  socket_connect = λ socket address port w. (true, w);
  socket_read = λ socket buffer size w. (first_byte w buffer, pos 5, w + 1);
  socket_write = λ socket buffer size w. (pos 18, w);
  socket_destroy = λ socket w. w;
  get_time_in_ms = λ w. (5250, w);
  thread_sleep = λ n w. w;
}

pub length-first_byte : (a : ℕ) (xs : List ℕ) → length (first_byte a xs) ≡ length xs
length-first_byte a [] = refl
length-first_byte a (x ∷ xs) = refl

talker-ReadsWell : ReadsWell talker
talker-ReadsWell socket buffer w h = record {
  kept = rw (length-first_byte w buffer) h;
  count = 5;
  whole = refl;
  below = omega arith;
  not_one = λ e. absurd (omega arith);
}

receiver_loop-Safe_example :
    ¬ (receiver_loop desk talker 3 ((false, temps) ∷ (true, temps) ∷ []) ready_self 170 ≡ fault)
receiver_loop-Safe_example =
    receiver_loop-Safe desk talker talker-ReadsWell 3 ((false, temps) ∷ (true, temps) ∷ [])
      ready_self 170 (ready_self-IsReady bufer_length (omega arith)) (omega arith)

-- A configuration frame that counts 400 PMUs and has none.
abbrev hollow_body : List ℕ
hollow_body =
    0xAA ∷ 0x31 ∷ be16 24
    ++ (be16 7 ++ (encode_stamp 1149577200 0 0 ++ (be32 1000000 ++ (be16 400 ++ be16 30))))

abbrev hollow : List ℕ
hollow = seal hollow_body ++ replicate 9976 0

hollow-IsAddressed : IsAddressed 0x31 7 hollow (pos 24)
unfolding two_byte_to_uint16
hollow-IsAddressed = record {
  intact =
      crc_check-seal hollow_body (replicate 9976 0) 22 (are_bytes-IsBytes hollow_body refl) refl
        (omega arith);
  sync = refl;
  kind_byte = refl;
  frame_size = 24;
  size_end = 4;
  reads_size = refl;
  whole = refl;
  id_end = 6;
  reads_id = refl;
}

parse_configuration_frame-overrun_example :
    parse_configuration_frame desk new_self hollow (pos 24) ≡ Outcome.fault
unfolding two_byte_to_uint16
parse_configuration_frame-overrun_example =
    parse_configuration_frame-overrun desk new_self hollow (pos 24) 400 hollow-IsAddressed refl
      (omega (arith, length-replicate {A = ℕ} 9976 0))

main_loop-undated_example :
    main_loop desk server 1 (temps ∷ []) ready_self ((0 ∷ 0 ∷ 1 ∷ [], pos 3) ∷ []) ≡ fault
unfolding crc_check
main_loop-undated_example =
    main_loop-undated desk server 1 0 temps [] ready_self ((0 ∷ 0 ∷ 1 ∷ [], pos 3) ∷ []) []
      (0 ∷ 0 ∷ 1 ∷ []) (pos 3) refl (omega arith) refl (Delivers.now (pos-suc 2) refl)
