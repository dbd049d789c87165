-- ===== src/Tests/Run.antt =====
-- An example on the example program, with a server that sends its configuration, one data frame, and then
-- other bytes without end.
use khorjin.Prelude.{
  ℕ, zero, suc, ◌+◌, ◌-◌, ◌≡◌, refl, arith, true, List, [], ◌∷◌, ◌++◌, length, length-append,
  length-replicate, replicate,
}
use khorjin.Prelude.Int.{ℤ, pos}
use khorjin.Pal.{Pal, fault}
use khorjin.Types.{C37118Client}
use khorjin.Wire.Crc.Check.{seal}
use khorjin.Config.Received.{config_body}
use khorjin.DataFrame.Whole.{IsDataFrame, data_body, measured}
use khorjin.DataFrame.Ready.{configured-IsDataFrame}
use khorjin.Command.{bufer_length}
use khorjin.Client.Session.{new_client}
use khorjin.Client.SessionLaws.{Refuses}
use khorjin.Client.StreamLaws.{Delivers, sent, get_data_stream-frame}
use khorjin.Client.Safe.{ReadsWell}
use khorjin.Example.{main}
use khorjin.Example.Setup.{answered, set_up}
use khorjin.Example.Safe.{main-not_fault}
use khorjin.Tests.Fixture.{
  desk, server, config_size, ready_self, data_size, temps, are_bytes-IsBytes, pos-suc,
}
use khorjin.Tests.Frames.{others-Agrees, sample-Matches}
use khorjin.Tests.Life.{config_221, data_221, config_221-IsConfigFrame}
use khorjin.Tests.Safety.{first_byte, length-first_byte}

abbrev config_rest : List ℕ
config_rest = replicate (9998 - config_size) 0

abbrev config_bytes : List ℕ
config_bytes = seal (config_body config_221 (config_size + 2)) ++ config_rest

abbrev data_rest : List ℕ
data_rest = replicate (9998 - data_size) 0

abbrev data_bytes : List ℕ
data_bytes = seal (data_body ready_self.configuration data_221 (data_size + 2)) ++ data_rest

abbrev told : List ℕ → ℕ → List ℕ × ℤ × ℕ
told buffer zero = (config_bytes, pos (config_size + 2), 1)
told buffer (suc zero) = (data_bytes, pos (data_size + 2), 2)
told buffer (suc (suc w)) = (first_byte w buffer, pos 5, suc (suc (suc w)))

abbrev endless : Pal
endless = record server {
  World = ℕ;
  socket_create = λ w. (4, w);
  set_connect_timeout = λ socket timeout w. w;
  socket_connect = λ socket address port w. (true, w);
  socket_read = λ socket buffer size w. told buffer w;
  socket_write = λ socket buffer size w. (pos 18, w);
  socket_destroy = λ socket w. w;
  get_time_in_ms = λ w. (5250, w);
  thread_sleep = λ n w. w;
}

length-config_bytes : length config_bytes ≡ bufer_length
length-config_bytes = omega (
  arith,
  length-append (seal (config_body config_221 (config_size + 2))) config_rest,
  length-replicate {A = ℕ} (9998 - config_size) 0,
)

length-data_bytes : length data_bytes ≡ bufer_length
length-data_bytes = omega (
  arith,
  length-append (seal (data_body ready_self.configuration data_221 (data_size + 2))) data_rest,
  length-replicate {A = ℕ} (9998 - data_size) 0,
)

endless-ReadsWell : ReadsWell endless
endless-ReadsWell socket buffer zero h = record {
  kept = length-config_bytes;
  count = config_size + 2;
  whole = refl;
  below = omega arith;
  not_one = λ e. absurd (omega arith);
}
endless-ReadsWell socket buffer (suc zero) h = record {
  kept = length-data_bytes;
  count = data_size + 2;
  whole = refl;
  below = omega arith;
  not_one = λ e. absurd (omega arith);
}
endless-ReadsWell socket buffer (suc (suc w)) h = record {
  kept = rw (length-first_byte w buffer) h;
  count = 5;
  whole = refl;
  below = omega arith;
  not_one = λ e. absurd (omega arith);
}

abbrev start : C37118Client ℕ
start = set_up desk endless [] [] 4 0 config_221 config_size config_rest 1

start-IsDataFrame : IsDataFrame start data_221
start-IsDataFrame =
    configured-IsDataFrame desk
      (record (answered desk endless [] [] 4 0 config_bytes) {
        buffer_snd = sent 2 221 5250;
        running = true;
      })
      config_221 data_221
      (sample-Matches 83 3000 (omega arith), (sample-Matches 84 3001 (omega arith), tt))
      (omega arith) (omega arith) (omega arith) refl

main-not_fault_example : ¬ (main desk endless 1 [] [] (temps ∷ temps ∷ temps ∷ []) 0 ≡ fault)
unfolding new_client
main-not_fault_example =
    main-not_fault desk endless 1 0 4 [] [] 0 0 0 0 refl Refuses.no_more (omega arith) (omega arith)
      refl endless-ReadsWell 0 config_size config_221 config_rest 1 2 temps (temps ∷ temps ∷ [])
      (measured desk data_221 temps (record start { buffer_rcv = data_bytes }))
      config_221-IsConfigFrame others-Agrees refl (omega arith)
      (are_bytes-IsBytes (config_body config_221 (config_size + 2)) refl) refl
      (Delivers.now (pos-suc (config_size + 1)) refl) (omega arith) (omega arith)
      (get_data_stream-frame desk endless start 1 2 1 0 temps (omega arith) data_size data_221
        data_rest start-IsDataFrame refl (omega arith)
        (are_bytes-IsBytes (data_body ready_self.configuration data_221 (data_size + 2)) refl)
        (Delivers.now (pos-suc (data_size + 1)) refl))
