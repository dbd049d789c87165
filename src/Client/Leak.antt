-- ===== src/Client/Leak.antt =====
-- The calendar structures that `parseTimeStamp` makes, one for every frame that is taken in, against
-- those that `c37_118client_destroy` frees.
use khorjin.Prelude.{
  ℕ, zero, suc, ◌+◌, ◌-◌, ◌≡◌, refl, arith, length, none, some, Option, List, [], ◌∷◌, ◌++◌,
}
use khorjin.Prelude.Int.{pos, negsuc}
use khorjin.Platform.{Platform}
use khorjin.Pal.{Pal, returns, Returns, Returns-inv, Returns-map}
use khorjin.Print.{Line}
use khorjin.Types.{C37118Client, Time, zero_time}
use khorjin.TimeStamp.{overwritten}
use khorjin.Client.Session.{
  PmuConnectionData, Block, client_structure, new_client, connect, destroy,
}
use khorjin.Client.Calls.{connect-new_client}
use khorjin.Client.DestroyLaws.{owned}
use khorjin.Client.FreedCalendars.{count_calendars, owned-calendars, held, calendar-held}
use khorjin.Client.Stream.{Result, value, no_value}
use khorjin.Client.Reach.{
  Step, Reach, stops, starts, configures, takes, cleared_by_other, world, here, then_step,
  destroy-Reach,
}
use khorjin.Client.Calendars.{
  Renewed, stop_transmission-SameDates, start_transmission-SameDates, get_configuration-Configures,
  get_data_stream-Takes,
}

-- A call for a frame takes one in exactly if it returns 0.
abbrev frame_taken : Result → ℕ
frame_taken (value (pos zero)) = 1
frame_taken (value (pos (suc n))) = 0
frame_taken (value (negsuc n)) = 0
frame_taken no_value = 0

-- Of `k` calendars the time stamp points at the last, and all others are lost.
record HasLast {F : Type 0} (k : ℕ) (t : Time F) : Type 0 where
  all : held t.parsed_time + length t.lost ≡ k
  lost : length t.lost ≡ k - 1

Kept-HasLast :
    {F : Type 0} (old new : Time F) (k : ℕ) → new ≡ old → HasLast k old → HasLast (0 + k) new
Kept-HasLast old new k e h =
    rw e (record { all = omega (arith, h.all); lost = omega (arith, h.lost) })

length-overwritten :
    {X : Type 0} (o : Option X) (lost : List X) → length (overwritten o lost) ≡ held o + length lost
length-overwritten none lost = omega arith
length-overwritten (some x) lost = omega arith

Renewed-HasLast :
    {F : Type 0} (result : Result) (old new : Time F) (k : ℕ)
    → Renewed result old new
    → HasLast k old
    → HasLast (frame_taken result + k) new
Renewed-HasLast (value (pos zero)) old new k ((c, e), g) h = record {
  all = rw (e, g) (omega (arith, length-overwritten old.parsed_time old.lost, h.all));
  lost = rw g (omega (arith, length-overwritten old.parsed_time old.lost, h.all));
}
Renewed-HasLast (value (pos (suc n))) old new k e h = Kept-HasLast old new k e h
Renewed-HasLast (value (negsuc n)) old new k e h = Kept-HasLast old new k e h
Renewed-HasLast no_value old new k e h = Kept-HasLast old new k e h

module _ (p : Platform) (pal : Pal) where
  -- The frames of either kind that were taken in on the way.
  abbrev config_made :
      {self self' : C37118Client p.Float} {w w' : pal.World} → Step p pal self w self' w' → ℕ
  config_made (stops e) = 0
  config_made (starts e) = 0
  config_made (configures rounds result e) = frame_taken result
  config_made (takes rounds t result e) = 0
  config_made (cleared_by_other e) = 0
  config_made (world e) = 0

  abbrev data_made :
      {self self' : C37118Client p.Float} {w w' : pal.World} → Step p pal self w self' w' → ℕ
  data_made (stops e) = 0
  data_made (starts e) = 0
  data_made (configures rounds result e) = 0
  data_made (takes rounds t result e) = frame_taken result
  data_made (cleared_by_other e) = 0
  data_made (world e) = 0

  abbrev pub config_frames :
      {self : C37118Client p.Float} {w : pal.World} {self' : C37118Client p.Float} {w' : pal.World}
      → Reach p pal self w self' w'
      → ℕ
  config_frames here = 0
  config_frames (then_step r s) = config_made s + config_frames r

  abbrev pub data_frames :
      {self : C37118Client p.Float} {w : pal.World} {self' : C37118Client p.Float} {w' : pal.World}
      → Reach p pal self w self' w'
      → ℕ
  data_frames here = 0
  data_frames (then_step r s) = data_made s + data_frames r

  record IsCounted (k m : ℕ) (self : C37118Client p.Float) : Type 0 where
    config : HasLast k self.config_time_stamp
    measured : HasLast m self.data_time_stamp

  Step-IsCounted :
      {self self' : C37118Client p.Float} {w w' : pal.World} (s : Step p pal self w self' w')
      (k m : ℕ)
      → IsCounted k m self
      → IsCounted (config_made s + k) (data_made s + m) self'
  Step-IsCounted {self} {self'} {w} {w'} (stops e) k m v =
      let d = Returns-inv _ (stop_transmission-SameDates p pal self w) e in
      record {
        config = Kept-HasLast _ _ k d.config_kept v.config;
        measured = Kept-HasLast _ _ m d.data_kept v.measured;
      }
  Step-IsCounted {self} {self'} {w} {w'} (starts e) k m v =
      let d = Returns-inv _ (start_transmission-SameDates p pal self w) e in
      record {
        config = Kept-HasLast _ _ k d.config_kept v.config;
        measured = Kept-HasLast _ _ m d.data_kept v.measured;
      }
  Step-IsCounted {self} {self'} {w} {w'} (configures rounds result e) k m v =
      let d = Returns-inv _ (get_configuration-Configures p pal rounds self w) e in
      record {
        config = Renewed-HasLast result _ _ k d.config_renewed v.config;
        measured = Kept-HasLast _ _ m d.data_kept v.measured;
      }
  Step-IsCounted {self} {self'} {w} {w'} (takes rounds t result e) k m v =
      let d = Returns-inv _ (get_data_stream-Takes p pal rounds t self w) e in
      record {
        config = Kept-HasLast _ _ k d.config_kept v.config;
        measured = Renewed-HasLast result _ _ m d.data_renewed v.measured;
      }
  Step-IsCounted {self} {self'} {w} {w'} (cleared_by_other e) k m v = rw e (record {
    config = Kept-HasLast _ _ k refl v.config;
    measured = Kept-HasLast _ _ m refl v.measured;
  })
  Step-IsCounted {self} {self'} {w} {w'} (world e) k m v = rw e (record {
    config = Kept-HasLast _ _ k refl v.config;
    measured = Kept-HasLast _ _ m refl v.measured;
  })

  Reach-IsCounted :
      {self : C37118Client p.Float} {w : pal.World} {self' : C37118Client p.Float} {w' : pal.World}
      (r : Reach p pal self w self' w')
      → IsCounted 0 0 self
      → IsCounted (config_frames r) (data_frames r) self'
  Reach-IsCounted here v = v
  Reach-IsCounted (then_step r s) v = Step-IsCounted s _ _ (Reach-IsCounted r v)

  none_yet : HasLast 0 (zero_time p)
  none_yet = record { all = omega arith; lost = omega arith }

  connect-IsCounted :
      (rounds : ℕ) (send receive : List ℕ) (parameters : PmuConnectionData) (timeout : ℕ)
      (w : pal.World)
      → Returns (λ r. IsCounted 0 0 r.1) (connect p pal rounds send receive parameters timeout w)
  unfolding new_client
  connect-IsCounted rounds send receive parameters timeout w =
      Returns-map (connect-new_client p pal rounds send receive parameters timeout w)
        (λ r e. rw e (record { config = none_yet; measured = none_yet }))

  -- After `connect` and any steps in which k configuration frames and m data frames were taken in, each of
  -- which has set the pointer of its time stamp to a new calendar, `destroy` frees the calendars that the
  -- two pointers have, at most one of either kind: k - 1 and m - 1 of the k + m calendars, where there are
  -- any, are on the heap with no pointer to them and are never freed.
  pub destroy-calendars :
      (rounds : ℕ) (send receive : List ℕ) (parameters : PmuConnectionData) (timeout : ℕ)
      (w0 w w' : pal.World) (lines : List (Line p.Float)) (self self' : C37118Client p.Float)
      → connect p pal rounds send receive parameters timeout w0 ≡ returns (lines, self, w)
      → (r : Reach p pal self w self' w')
      → (freed : List Block × pal.World) × (destroy p pal self' w' ≡ returns freed)
        × (length self'.config_time_stamp.lost ≡ config_frames r - 1)
        × (length self'.data_time_stamp.lost ≡ data_frames r - 1)
        × (count_calendars freed.0
              + length self'.config_time_stamp.lost
              + length self'.data_time_stamp.lost
            ≡ config_frames r + data_frames r)
  destroy-calendars rounds send receive parameters timeout w0 w w' lines self self' e r =
      let v : IsCounted (config_frames r) (data_frames r) self' =
        Reach-IsCounted r
          (Returns-inv _ (connect-IsCounted rounds send receive parameters timeout w0) e) in
      let (id, word, d) =
        destroy-Reach p pal rounds send receive parameters timeout w0 w w' lines self self' e r in
      (
        _,
        d,
        v.config.lost,
        v.measured.lost,
        omega (
          arith,
          calendar-held p pal self'.config_time_stamp.parsed_time self'.data_time_stamp.parsed_time
              (owned self'.num_pmu ++ client_structure ∷ []),
          owned-calendars self'.num_pmu,
          v.config.all,
          v.measured.all,
        ),
      )
