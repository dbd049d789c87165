-- ===== src/Client/FreedCalendars.antt =====
-- The calendars among the blocks that `c37_118client_destroy` frees.
use khorjin.Prelude.{
  ℕ, zero, suc, ◌+◌, ◌≡◌, refl, ap, ◌∙◌, arith, Option, none, some, List, [], ◌∷◌, ◌++◌,
  append_assoc,
}
use khorjin.Platform.{Platform, ParsedTime}
use khorjin.Pal.{Pal}
use khorjin.Client.Session.{
  Block, receive_buffer, send_buffer, config_calendar, data_calendar, phasors, analogs, digitals,
  configurations, client_structure, calendar,
}
use khorjin.Client.DestroyLaws.{arrays_from, owned}

abbrev pub count_calendars : List Block → ℕ
count_calendars [] = 0
count_calendars (config_calendar ∷ bs) = suc (count_calendars bs)
count_calendars (data_calendar ∷ bs) = suc (count_calendars bs)
count_calendars (receive_buffer ∷ bs) = count_calendars bs
count_calendars (send_buffer ∷ bs) = count_calendars bs
count_calendars (phasors i ∷ bs) = count_calendars bs
count_calendars (analogs i ∷ bs) = count_calendars bs
count_calendars (digitals i ∷ bs) = count_calendars bs
count_calendars (configurations ∷ bs) = count_calendars bs
count_calendars (client_structure ∷ bs) = count_calendars bs

arrays_from-calendars :
    (n i : ℕ) (bs : List Block) → count_calendars (arrays_from i n ++ bs) ≡ count_calendars bs
arrays_from-calendars zero i bs = refl
arrays_from-calendars (suc n) i bs = arrays_from-calendars n (i + 1) bs

pub owned-calendars : (n : ℕ) → count_calendars (owned n ++ client_structure ∷ []) ≡ 0
owned-calendars zero = refl
owned-calendars (suc n) =
    ap count_calendars
      (append_assoc (arrays_from 0 (suc n)) (configurations ∷ []) (client_structure ∷ []))
    ∙ arrays_from-calendars (suc n) 0 (configurations ∷ client_structure ∷ [])

abbrev pub held : {X : Type 0} → Option X → ℕ
held none = 0
held (some c) = 1

module _ (p : Platform) (pal : Pal) where
  pub calendar-held :
      (o o' : Option (ParsedTime p.Float)) (bs : List Block)
      → count_calendars
          (calendar p pal config_calendar o ++ (calendar p pal data_calendar o' ++ bs))
        ≡ held o + held o' + count_calendars bs
  unfolding calendar
  calendar-held none none bs = omega arith
  calendar-held none (some c) bs = omega arith
  calendar-held (some c) none bs = omega arith
  calendar-held (some c) (some d) bs = omega arith
