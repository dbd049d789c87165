-- ===== src/Client/Calendars.antt =====
-- What each call does to the calendars of the two time stamps.
use khorjin.Prelude.{ℕ, zero, suc, ◌≡◌, refl, ◌∙◌, Yields-inv}
use khorjin.Prelude.Int.{pos, negsuc}
use khorjin.Platform.{Platform}
use khorjin.Pal.{Pal, Returns, Returns->>=, Returns->>=_any, Returns-map}
use khorjin.Types.{C37118Client, Time}
use khorjin.Command.{cleared}
use khorjin.Config.Frame.{parse_configuration_frame}
use khorjin.DataFrame.Values.{Temps}
use khorjin.DataFrame.Frame.{parse_data_frame}
use khorjin.DataFrame.Dated.{Reset, read_configuration-Reset, read_data-Reset}
use khorjin.DataFrame.Accept.{parse_data_frame-IsAddressed, parse_configuration_frame-IsAddressed}
use khorjin.Client.Calls.{
  send_command-changes, stop_transmission-changes, start_transmission-changes,
  configuration_result-Returns, data_result-Returns,
}
use khorjin.Client.Stream.{
  Result, value, no_value, send_command, stop_transmission, start_transmission, receive,
  get_configuration, get_data_stream,
}

-- A call that returns 0 sets the pointer of the time stamp again, any other leaves the stamp alone.
abbrev pub Renewed : {F : Type 0} → Result → Time F → Time F → Type 0
Renewed (value (pos zero)) old new = Reset old new
Renewed (value (pos (suc n))) old new = new ≡ old
Renewed (value (negsuc n)) old new = new ≡ old
Renewed no_value old new = new ≡ old

module _ (p : Platform) where
  -- Neither time stamp has changed.
  pub record SameDates (self self' : C37118Client p.Float) : Type 0 where
    pub config_kept : self'.config_time_stamp ≡ self.config_time_stamp
    pub data_kept : self'.data_time_stamp ≡ self.data_time_stamp

module _ (p : Platform) (pal : Pal) where
  pub stop_transmission-SameDates :
      (self : C37118Client p.Float) (w : pal.World)
      → Returns (λ r. SameDates p self r.0) (stop_transmission p pal self w)
  stop_transmission-SameDates self w =
      Returns-map (stop_transmission-changes p pal self w)
        (λ r (bytes, e). rw e (record { config_kept = refl; data_kept = refl }))

  pub start_transmission-SameDates :
      (self : C37118Client p.Float) (w : pal.World)
      → Returns (λ r. SameDates p self r.0) (start_transmission p pal self w)
  start_transmission-SameDates self w =
      Returns-map (start_transmission-changes p pal self w)
        (λ r (bytes, e). rw e (record { config_kept = refl; data_kept = refl }))

  -- What a call for a frame has done to the two calendars.
  pub record Configures (self : C37118Client p.Float)
      (r : C37118Client p.Float × Result × pal.World) : Type 0 where
    pub config_renewed : Renewed r.1 self.config_time_stamp r.0.config_time_stamp
    pub data_kept : r.0.data_time_stamp ≡ self.data_time_stamp

  pub record Takes (self : C37118Client p.Float) (r : C37118Client p.Float × Result × pal.World)
      : Type 0 where
    pub data_renewed : Renewed r.1 self.data_time_stamp r.0.data_time_stamp
    pub config_kept : r.0.config_time_stamp ≡ self.config_time_stamp

  pub get_configuration-Configures :
      (rounds : ℕ) (self : C37118Client p.Float) (w : pal.World)
      → Returns (Configures self) (get_configuration p pal rounds self w)
  unfolding get_configuration
  get_configuration-Configures rounds self w =
      let asking : C37118Client p.Float = record self { buffer_rcv = cleared } in
      Returns->>= _ (send_command p pal 0x05 asking w) _ (send_command-changes p pal 0x05 asking w)
        λ r (bytes, e).
          Returns->>=_any _ (receive p pal rounds r.0.socket r.0.buffer_rcv r.1) _ λ b.
            let heard : C37118Client p.Float = record r.0 { buffer_rcv = b.0 } in
            let v : SameDates p self heard =
              rw e (record { config_kept = refl; data_kept = refl }) in
            configuration_result-Returns p pal (Configures self) heard b.2
              (parse_configuration_frame p heard b.0 b.1)
              (record { config_renewed = v.config_kept; data_kept = v.data_kept })
              (λ self' h.
                let (a, body) = (parse_configuration_frame-IsAddressed p heard b.0 b.1 self').0 h in
                let (dated, kept) =
                  Yields-inv _ (read_configuration-Reset p b.0 heard a.frame_size a.id_end) body in
                record {
                  config_renewed = rw (← v.config_kept) dated;
                  data_kept = kept ∙ v.data_kept;
                })

  pub get_data_stream-Takes :
      (rounds : ℕ) (t : Temps p.Float) (self : C37118Client p.Float) (w : pal.World)
      → Returns (Takes self) (get_data_stream p pal rounds t self w)
  unfolding get_data_stream
  get_data_stream-Takes rounds t self w =
      Returns->>=_any _ (receive p pal rounds self.socket cleared w) _ λ b.
        let heard : C37118Client p.Float = record self { buffer_rcv = b.0 } in
        data_result-Returns p pal (Takes self) heard b.2 (parse_data_frame p heard t b.0 b.1)
          (record { data_renewed = refl; config_kept = refl })
          (λ self' h.
            let (a, body) = (parse_data_frame-IsAddressed p heard b.0 b.1 t self').0 h in
            let (dated, kept) = Yields-inv _ (read_data-Reset p b.0 heard t a.id_end) body in
            record { data_renewed = dated; config_kept = kept })
