-- ===== src/Client/Typed.antt =====
-- The integers, the texts and the buffers of a client through any sequence of calls.
use khorjin.Prelude.{ℕ, ◌≡◌, arith, false, List, IsBytes}
use khorjin.Platform.{Platform}
use khorjin.Pal.{Pal, returns, Returns, Returns-inv, Returns-map}
use khorjin.Print.{Line}
use khorjin.Types.{C37118Client, zero_time}
use khorjin.Typed.{TimeTyped, ClientTyped}
use khorjin.Client.Session.{PmuConnectionData, new_client, connect}
use khorjin.Client.Calls.{connect-new_client}
use khorjin.Client.Reach.{
  Step, Reach, stops, starts, configures, takes, cleared_by_other, world, here, then_step,
}
use khorjin.Client.TypedCalls.{
  ReadsBytes, with_buffers, stop_transmission-Typed, start_transmission-Typed,
  get_configuration-Typed, get_data_stream-Typed,
}

module _ (p : Platform) (pal : Pal) where
  zero_time-Typed : TimeTyped (zero_time p)
  zero_time-Typed = record { time_value_in_ms = omega arith; second_of_cenctury = omega arith }

  connect-Typed :
      (rounds : ℕ) (send receive : List ℕ) (parameters : PmuConnectionData) (timeout : ℕ)
      (w : pal.World)
      → IsBytes send
      → IsBytes receive
      → Returns (λ r. ClientTyped r.1) (connect p pal rounds send receive parameters timeout w)
  unfolding new_client
  connect-Typed rounds send receive parameters timeout w hs hr =
      Returns-map (connect-new_client p pal rounds send receive parameters timeout w) λ r e.
        rw e (record {
          buffer_snd = hs;
          buffer_rcv = hr;
          idcode = omega arith;
          num_pmu = omega arith;
          time_base = omega arith;
          data_rate = omega arith;
          config_time_stamp = zero_time-Typed;
          header_time_stamp = zero_time-Typed;
          data_time_stamp = zero_time-Typed;
          configuration = tt;
        })

  module _ (reads : ReadsBytes pal) where
    Step-Typed :
        {self self' : C37118Client p.Float} {w w' : pal.World}
        → Step p pal self w self' w'
        → ClientTyped self
        → ClientTyped self'
    Step-Typed {self} {self'} {w} {w'} (stops e) v =
        Returns-inv _ (stop_transmission-Typed p pal self w v) e
    Step-Typed {self} {self'} {w} {w'} (starts e) v =
        Returns-inv _ (start_transmission-Typed p pal self w v) e
    Step-Typed {self} {self'} {w} {w'} (configures rounds result e) v =
        Returns-inv _ (get_configuration-Typed p pal reads rounds self w v) e
    Step-Typed {self} {self'} {w} {w'} (takes rounds t result e) v =
        Returns-inv _ (get_data_stream-Typed p pal reads rounds t self w v) e
    Step-Typed {self} {self'} {w} {w'} (cleared_by_other e) v =
        rw e (with_buffers self self.buffer_snd self.buffer_rcv false v v.buffer_snd v.buffer_rcv)
    Step-Typed {self} {self'} {w} {w'} (world e) v = rw e v

    Reach-Typed :
        {self : C37118Client p.Float} {w : pal.World} {self' : C37118Client p.Float}
        {w' : pal.World}
        → Reach p pal self w self' w'
        → ClientTyped self
        → ClientTyped self'
    Reach-Typed here v = v
    Reach-Typed (then_step r s) v = Step-Typed s (Reach-Typed r v)

    -- Let the memory of the two buffers and what the socket is read into hold bytes. After `connect` and
    -- any steps, whatever bytes the server has sent, every integer of the client fits the type that its
    -- field is declared with, but for the calendars and the leap second direction, which are not looked at, a
    -- digital word has 16 channels, every name is a text of 20 bytes with a zero at its end, both buffers
    -- hold bytes, and the milliseconds of the time stamps are below 2 ^ 63.
    pub connect-ClientTyped :
        (rounds : ℕ) (send receive : List ℕ) (parameters : PmuConnectionData) (timeout : ℕ)
        (w0 w w' : pal.World) (lines : List (Line p.Float)) (self self' : C37118Client p.Float)
        → IsBytes send
        → IsBytes receive
        → connect p pal rounds send receive parameters timeout w0 ≡ returns (lines, self, w)
        → Reach p pal self w self' w'
        → ClientTyped self'
    connect-ClientTyped rounds send receive parameters timeout w0 w w' lines self self' hs hr e r =
        Reach-Typed r
          (Returns-inv _ (connect-Typed rounds send receive parameters timeout w0 hs hr) e)
