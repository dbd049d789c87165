-- ===== src/TimeStamp/Laws.antt =====
-- `parseTimeStamp` on an encoded time stamp.
use khorjin.Prelude.{
  ℕ, ◌+◌, ◌<◌, ◌≡◌, ap, some, List, [], ◌∷◌, ◌++◌, arith, IsU32, drop, drop-append,
}
use khorjin.Platform.{Platform}
use khorjin.Types.{Time}
use khorjin.Wire.Cursor.{be24, be32, byte-at, three_byte-be24, four_byte-be32}
use khorjin.TimeStamp.{stamp, parse_time_stamp}

abbrev pub encode_stamp : ℕ → ℕ → ℕ → List ℕ
encode_stamp soc quality fracsec = be32 soc ++ quality ∷ be24 fracsec

pub parse_time_stamp-encode :
    (p : Platform) (t : Time p.Float) (time_base : ℕ) (buf : List ℕ) (pos soc quality fracsec : ℕ)
    (rest : List ℕ)
    → IsU32 soc
    → fracsec < 16777216
    → drop pos buf ≡ encode_stamp soc quality fracsec ++ rest
    → parse_time_stamp p t time_base buf pos
      ≡ some (stamp p time_base soc quality fracsec t, pos + 8)
unfolding parse_time_stamp
parse_time_stamp-encode p t time_base buf pos soc quality fracsec rest hs hf e =
    let past : drop (pos + 4) buf ≡ quality ∷ be24 fracsec ++ rest =
      drop-append pos buf (be32 soc) _ e in
    rw
      (
        four_byte-be32 buf pos soc _ hs e,
        byte-at buf (pos + 4) _ quality past,
        three_byte-be24 buf (pos + 4 + 1) fracsec rest hf
            (drop-append (pos + 4) buf (quality ∷ []) _ past),
      )
      (ap (λ q. some (stamp p time_base soc quality fracsec t, q)) (omega arith))
