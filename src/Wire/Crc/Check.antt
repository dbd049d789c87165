-- ===== src/Wire/Crc/Check.antt =====
-- `computeCRC` and `crcCheck` on a whole message.
use khorjin.Prelude.{
  ℕ, ◌+◌, ◌*◌, ◌/◌, ◌%◌, ◌<◌, ◌≡◌, refl, sym, ap, ◌∙◌, arith, true, some, List, [], ◌∷◌, ◌++◌,
  IsByte, IsBytes, IsU16, ◌==◌, ==_refl, length, drop, drop-length, append_assoc, get_elem?-drop,
  drop-append,
}
use khorjin.Prelude.Int.{pos, ◌-ℤ◌}
use khorjin.Wire.Crc.{crc_step, crc_loop, compute_crc, crc_check}
use khorjin.Wire.Crc.Step.{crc_step-IsU16}
use khorjin.Wire.Crc.Serial.{serial_step, crc_step-serial}
use khorjin.Wire.Cursor.{be16}

-- The checksum of a list of bytes that starts from `c`.
unfoldable pub crc_from : ℕ → List ℕ → ℕ
crc_from c [] = c
crc_from c (b ∷ bs) = crc_from (crc_step c b) bs

-- The checksum of the standard: the register starts with all bits set.
unfoldable pub serial_from : ℕ → List ℕ → ℕ
serial_from c [] = c
serial_from c (b ∷ bs) = serial_from (serial_step c b) bs

abbrev pub crc_of : List ℕ → ℕ
crc_of xs = crc_from 0xFFFF xs

-- A frame is its body and the checksum of the body.
abbrev pub seal : List ℕ → List ℕ
seal body = body ++ be16 (crc_of body)

pub crc_from-IsU16 : (xs : List ℕ) (c : ℕ) → IsU16 c → IsBytes xs → IsU16 (crc_from c xs)
unfolding crc_from
crc_from-IsU16 [] c hc h = hc
crc_from-IsU16 (b ∷ bs) c hc h = crc_from-IsU16 bs (crc_step c b) (crc_step-IsU16 c b hc h.0) h.1

pub crc_of-IsU16 : (xs : List ℕ) → IsBytes xs → IsU16 (crc_of xs)
crc_of-IsU16 xs h = crc_from-IsU16 xs 0xFFFF (omega arith) h

pub crc_from-serial :
    (xs : List ℕ) (c : ℕ) → IsU16 c → IsBytes xs → crc_from c xs ≡ serial_from c xs
unfolding crc_from serial_from
crc_from-serial [] c hc h = refl
crc_from-serial (b ∷ bs) c hc h =
    crc_from-serial bs (crc_step c b) (crc_step-IsU16 c b hc h.0) h.1
    ∙ ap (λ x. serial_from x bs) (crc_step-serial c b hc h.0)

crc_loop_done : (rest : List ℕ) (c : ℕ) → crc_loop rest 0 c ≡ some c
unfolding crc_loop
crc_loop_done [] c = refl
crc_loop_done (b ∷ bs) c = refl

pub crc_loop-append :
    (xs rest : List ℕ) (c : ℕ) → crc_loop (xs ++ rest) (length xs) c ≡ some (crc_from c xs)
unfolding crc_from crc_loop
crc_loop-append [] rest c = crc_loop_done rest c
crc_loop-append (b ∷ bs) rest c = crc_loop-append bs rest (crc_step c b)

-- On a message of bytes `computeCRC` returns the checksum of the standard for its first `MessLen`
-- bytes, and reads no more of the buffer.
pub compute_crc-serial :
    (xs rest : List ℕ)
    → IsBytes xs
    → compute_crc (xs ++ rest) (length xs) ≡ some (serial_from 0xFFFF xs)
unfolding compute_crc
compute_crc-serial xs rest h =
    crc_loop-append xs rest 0xFFFF ∙ ap some (crc_from-serial xs 0xFFFF (omega arith) h)

size-two : (n : ℕ) → pos (n + 2) -ℤ 2 ≡ pos n
size-two n = ground arith

size-one : (n : ℕ) → pos (n + 2) -ℤ 1 ≡ pos (n + 1)
size-one n = ground arith

-- On a buffer that holds a message of less than 0x7FFFFFF0 elements and two bytes, `crcCheck` is whether
-- the checksum of the message is the word in the two bytes.
pub crc_check-compares :
    (xs rest : List ℕ) (hi lo n : ℕ)
    → length xs ≡ n
    → n < 0x7FFFFFF0
    → IsByte hi
    → IsByte lo
    → crc_check (xs ++ hi ∷ lo ∷ rest) (pos (n + 2)) ≡ some (crc_of xs == hi * 256 + lo)
unfolding crc_check compute_crc
crc_check-compares xs rest hi lo n hn small hhi hlo =
    let at : drop n (xs ++ hi ∷ lo ∷ rest) ≡ hi ∷ lo ∷ rest =
      rw (← hn) (drop-length xs (hi ∷ lo ∷ rest)) in
    let message : crc_loop (xs ++ hi ∷ lo ∷ rest) n 0xFFFF ≡ some (crc_of xs) =
      rw (← hn) (crc_loop-append xs (hi ∷ lo ∷ rest) 0xFFFF) in
    let whole : n % 4294967296 ≡ n = omega arith in
    let word : (hi * 256 + lo) % 65536 ≡ hi * 256 + lo = omega arith in
    rw (
      size-two n,
      size-one n,
      whole,
      message,
      get_elem?-drop (xs ++ hi ∷ lo ∷ rest) n hi (lo ∷ rest) at,
      get_elem?-drop (xs ++ hi ∷ lo ∷ rest) (n + 1) lo rest
          (drop-append n (xs ++ hi ∷ lo ∷ rest) (hi ∷ []) (lo ∷ rest) at),
      word,
    )

-- A sealed frame of less than 0x7FFFFFF0 bytes passes `crcCheck`, whatever the buffer holds behind it.
pub crc_check-seal :
    (body rest : List ℕ) (n : ℕ)
    → IsBytes body
    → length body ≡ n
    → n < 0x7FFFFFF0
    → crc_check (seal body ++ rest) (pos (n + 2)) ≡ some true
crc_check-seal body rest n h hn small =
    let word : IsU16 (crc_of body) = crc_of-IsU16 body h in
    let parts : crc_of body ≡ crc_of body / 256 * 256 + crc_of body % 256 = omega arith in
    ap (λ (b : List ℕ). crc_check b (pos (n + 2))) (append_assoc body (be16 (crc_of body)) rest)
    ∙ crc_check-compares body rest _ _ n hn small (omega arith) (omega arith)
    ∙ ap some (ap (◌==◌ (crc_of body)) (sym parts) ∙ ==_refl (crc_of body))
