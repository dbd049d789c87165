-- ===== src/DataFrame/Safe.antt =====
-- When `parseDataFrame` leaves an array or the buffer.
use khorjin.Prelude.{ℕ, zero, suc, ◌<◌, ◌≤◌, ◌≡◌, refl, arith, List, length, get_elem?, ◌==◌, ◌↔◌}
use khorjin.Prelude.Int.{pos}
use khorjin.Prelude.Outcome.{
  fault, Settles, Settles-access, Settles-require, Settles-of, Settles-not_fault,
}
use khorjin.Platform.{Platform}
use khorjin.Types.{C37118Client}
use khorjin.Wire.Decode.{two_byte_to_uint16}
use khorjin.Wire.Room.{get_elem?-Gives, two_byte_to_uint16-Gives}
use khorjin.Wire.Crc.{crc_check}
use khorjin.Wire.Crc.Total.{crc_check-Gives, crc_check_short}
use khorjin.Config.Frame.{same_size}
use khorjin.DataFrame.Values.{Temps}
use khorjin.DataFrame.Frame.{parse_data_frame}
use khorjin.DataFrame.Total.{IsReady, IsAfter, read_data-Gives}

module _ (p : Platform) (self : C37118Client p.Float) (t : Temps p.Float) (buf : List ℕ) (n : ℕ)
    (v : IsReady (length buf) self) (h : n ≤ length buf) where
  pub parse_data_frame-Settles :
      2 ≤ n → Settles (IsAfter (length buf) self) (parse_data_frame p self t buf (pos n))
  unfolding parse_data_frame
  parse_data_frame-Settles few =
      let room : 14 ≤ length buf = omega (arith, v.fits) in
      Settles-access _ (crc_check buf (pos n)) _ (crc_check-Gives buf n few h) λ intact u0.
        Settles-require _ intact _ (
          Settles-access _ (get_elem? buf 0) _ (get_elem?-Gives buf 0 (omega arith)) λ sync u1.
            Settles-require _ (sync == 0xAA) _ (
              Settles-access _ (get_elem? buf 1) _ (get_elem?-Gives buf 1 (omega arith)) λ kind u2.
                Settles-require _ (kind == 0x01) _ (
                  Settles-access _ (two_byte_to_uint16 buf 2) _
                    (two_byte_to_uint16-Gives buf 2 (omega arith))
                    λ size e1. Settles-require _ (same_size size.0 (pos n)) _ (
                      Settles-access _ (two_byte_to_uint16 buf size.1) _
                        (two_byte_to_uint16-Gives buf size.1 (omega arith))
                        λ id e2. Settles-require _ (id.0 == self.idcode) _ (
                          let six : id.1 ≡ 6 = omega arith in
                          rw six (Settles-of (read_data-Gives p buf self t v)))))))

module _ (p : Platform) (self : C37118Client p.Float) (t : Temps p.Float) (buf : List ℕ)
    (v : IsReady (length buf) self) where
  fault-short : (n : ℕ) → n ≤ length buf → parse_data_frame p self t buf (pos n) ≡ fault → n < 2
  fault-short zero h e = omega arith
  fault-short (suc zero) h e = omega arith
  fault-short (suc (suc n)) h e =
      absurd (
        Settles-not_fault (parse_data_frame-Settles p self t buf (suc (suc n)) v h (omega arith)) e)

  -- Let the arrays of the client have the lengths that its counts say, and the data frame of its
  -- configuration fit the buffer. Then, whatever bytes the buffer holds and whatever number of them is
  -- given as received, up to its length, `parseDataFrame` accesses nothing outside the buffer and the
  -- arrays, but for one case: on less than two bytes it does.
  pub parse_data_frame-fault :
      (n : ℕ) → n ≤ length buf → (parse_data_frame p self t buf (pos n) ≡ fault) ↔ (n < 2)
  unfolding parse_data_frame
  parse_data_frame-fault n h = (fault-short n h, λ few. rw (crc_check_short buf n few) refl)
