-- ===== src/Client/Steady.antt =====
-- The layout of the PMU structures while the receiver loop runs.
use khorjin.Prelude.{ℕ, refl, ◌∙◌, Bool, true, false, ◌&&◌, not, List, [], ◌∷◌}
use khorjin.Platform.{Platform}
use khorjin.Pal.{Pal, Returns, Returns->>=, Returns->>=_any, Returns-map, Returns-if}
use khorjin.Types.{C37118Client}
use khorjin.Command.{cleared}
use khorjin.DataFrame.Values.{Temps}
use khorjin.DataFrame.Frame.{parse_data_frame}
use khorjin.DataFrame.Layout.{SameLayout}
use khorjin.DataFrame.Kept.{parse_data_frame-SameLayout}
use khorjin.Client.Calls.{
  stop_transmission-changes, start_transmission-changes, data_result-Returns,
}
use khorjin.Client.Stream.{
  stop_transmission, start_transmission, receive, get_data_stream, report, receiver_rounds,
  receiver_loop,
}

module _ (p : Platform) where
  SameLayout-refl : (self : C37118Client p.Float) → SameLayout p self self
  SameLayout-refl self = record {
    num_pmu = refl;
    time_base = refl;
    data_rate = refl;
    config_time_stamp = refl;
    configuration = refl;
  }

  SameLayout-trans :
      {a b c : C37118Client p.Float} → SameLayout p a b → SameLayout p b c → SameLayout p a c
  SameLayout-trans v u = record {
    num_pmu = u.num_pmu ∙ v.num_pmu;
    time_base = u.time_base ∙ v.time_base;
    data_rate = u.data_rate ∙ v.data_rate;
    config_time_stamp = u.config_time_stamp ∙ v.config_time_stamp;
    configuration = u.configuration ∙ v.configuration;
  }

  -- The buffers and `running` are no part of the layout.
  relabelled :
      {a b : C37118Client p.Float} (send receive : List ℕ) (running : Bool)
      → SameLayout p a b
      → SameLayout p a (record b { buffer_snd = send; buffer_rcv = receive; running = running })
  relabelled send receive running v = record {
    num_pmu = v.num_pmu;
    time_base = v.time_base;
    data_rate = v.data_rate;
    config_time_stamp = v.config_time_stamp;
    configuration = v.configuration;
  }

module _ (p : Platform) (pal : Pal) where
  stop_transmission-SameLayout :
      (self : C37118Client p.Float) (w : pal.World)
      → Returns (λ r. SameLayout p self r.0) (stop_transmission p pal self w)
  stop_transmission-SameLayout self w =
      Returns-map (stop_transmission-changes p pal self w)
        (λ r (bytes, e). rw e (relabelled p bytes self.buffer_rcv false (SameLayout-refl p self)))

  start_transmission-SameLayout :
      (self : C37118Client p.Float) (w : pal.World)
      → Returns (λ r. SameLayout p self r.0) (start_transmission p pal self w)
  start_transmission-SameLayout self w =
      Returns-map (start_transmission-changes p pal self w)
        (λ r (bytes, e). rw e (relabelled p bytes self.buffer_rcv true (SameLayout-refl p self)))

  get_data_stream-SameLayout :
      (rounds : ℕ) (t : Temps p.Float) (self : C37118Client p.Float) (w : pal.World)
      → Returns (λ r. SameLayout p self r.0) (get_data_stream p pal rounds t self w)
  unfolding get_data_stream
  get_data_stream-SameLayout rounds t self w =
      Returns->>=_any _ (receive p pal rounds self.socket cleared w) _ λ b.
        let heard : C37118Client p.Float = record self { buffer_rcv = b.0 } in
        let same : SameLayout p self heard =
          relabelled p self.buffer_snd b.0 self.running (SameLayout-refl p self) in
        data_result-Returns p pal (λ r. SameLayout p self r.0) heard b.2
          (parse_data_frame p heard t b.0 b.1) same
          (λ self' h.
            SameLayout-trans p same (parse_data_frame-SameLayout p b.0 heard self' t b.1 h))

  receiver_rounds-SameLayout :
      (rounds : ℕ) (schedule : List (Bool × Temps p.Float)) (self : C37118Client p.Float)
      (w : pal.World)
      → Returns (λ r. SameLayout p self r.1) (receiver_rounds p pal rounds schedule self w)
  unfolding receiver_rounds
  receiver_rounds-SameLayout rounds [] self w = Returns.waits
  receiver_rounds-SameLayout rounds ((stopped, t) ∷ schedule) self w =
      Returns-if (self.running && not stopped)
        (Returns->>= _ (get_data_stream p pal rounds t self w) _
          (get_data_stream-SameLayout rounds t self w)
          λ r v. Returns->>=_any _ (report p pal r.1 r.0) _ λ lines.
            Returns->>= _ (receiver_rounds p pal rounds schedule r.0 (pal.thread_sleep 1 r.2)) _
              (receiver_rounds-SameLayout rounds schedule r.0 (pal.thread_sleep 1 r.2))
              λ rest u. Returns.gives (SameLayout-trans p v u))
        (Returns->>= _ (stop_transmission p pal (record self { running = false }) w) _
          (stop_transmission-SameLayout (record self { running = false }) w)
          λ r v. Returns.gives (
            SameLayout-trans p
              (relabelled p self.buffer_snd self.buffer_rcv false (SameLayout-refl p self)) v))

  pub receiver_loop-SameLayout :
      (rounds : ℕ) (schedule : List (Bool × Temps p.Float)) (self : C37118Client p.Float)
      (w : pal.World)
      → Returns (λ r. SameLayout p self r.1) (receiver_loop p pal rounds schedule self w)
  unfolding receiver_loop
  receiver_loop-SameLayout rounds schedule self w =
      Returns->>= _ (start_transmission p pal self w) _ (start_transmission-SameLayout self w)
        λ r v.
          Returns-map (receiver_rounds-SameLayout rounds schedule r.0 r.1)
            (λ s u. SameLayout-trans p v u)
