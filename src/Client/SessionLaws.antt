-- ===== src/Client/SessionLaws.antt =====
-- `c37_118client_connect` against a server that refuses some attempts.
use khorjin.Prelude.{
  ℕ, zero, suc, ◌+◌, ◌-◌, ◌*◌, ◌^◌, ◌<◌, ◌≤◌, ◌≡◌, refl, ap, ◌∙◌, arith, true, false, some, List,
  [], ◌∷◌, ◌++◌, u16, u32, lt→ltb,
}
use khorjin.Prelude.Int.{uint32}
use khorjin.Platform.{Platform}
use khorjin.Pal.{Pal, fault, returns, ◌>>=◌}
use khorjin.Print.{Line}
use khorjin.Client.Session.{
  PmuConnectionData, backoff, failed_line, greeting, new_client, connect_loop, connect,
}

backoff_below :
    (count timeout : ℕ) → count < 31 → backoff count timeout ≡ some (u32 (2 ^ count * timeout))
unfolding backoff
backoff_below count timeout h = rw (lt→ltb count 31 h) refl

module _ (pal : Pal) (socket : ℕ) (parameters : PmuConnectionData) (timeout : ℕ) where
  -- `Socket_connect` fails `k` times, and after attempt `count` the timeout is 2 ^ count times the first.
  pub data Refuses (w' : pal.World) : ℕ → ℕ → pal.World → Type 0 where
    no_more : {count : ℕ} → Refuses w' count 0 w'
    again :
        {count k : ℕ} {w w1 : pal.World}
        → pal.socket_connect socket parameters.ip_address_pmu_server parameters.pmu_port_number w
          ≡ (false, w1)
        → Refuses w' (count + 1) k (pal.set_connect_timeout socket (u32 (2 ^ count * timeout)) w1)
        → Refuses w' count (suc k) w

module _ (p : Platform) (pal : Pal) (timeout : ℕ) where
  -- What is printed about the failed attempts from `count` on.
  abbrev pub failed_lines : ℕ → ℕ → List (Line p.Float)
  failed_lines count zero = []
  failed_lines count (suc k) =
      failed_line p pal (u32 (2 ^ count * timeout)) ∷ failed_lines (count + 1) k

module _ (p : Platform) (pal : Pal) (socket : ℕ) (parameters : PmuConnectionData) (timeout : ℕ)
    (w' : pal.World) where
  -- The loop with refused attempts in front of what its rest does.
  loop_step :
      (k count rounds : ℕ) (w w1 : pal.World)
      → pal.socket_connect socket parameters.ip_address_pmu_server parameters.pmu_port_number w
        ≡ (false, w1)
      → count < 31
      → connect_loop p pal (suc k + rounds) socket parameters timeout count w ≡ (
          connect_loop p pal
            (k + rounds)
            socket
            parameters
            timeout
            (count + 1)
            (pal.set_connect_timeout socket (u32 (2 ^ count * timeout)) w1)
          >>= λ r. returns (failed_line p pal (u32 (2 ^ count * timeout)) ∷ r.0, r.1))
  unfolding connect_loop
  loop_step k count rounds w w1 e h =
      let a : suc k + rounds ≡ suc (k + rounds) = omega arith in
      rw (a, e, backoff_below count timeout h) refl

  module _ (rounds : ℕ) where
    connect_loop-Refuses :
        (k count : ℕ) (w w2 : pal.World)
        → Refuses pal socket parameters timeout w' count k w
        → count + k ≤ 31
        → connect_loop p pal rounds socket parameters timeout (count + k) w' ≡ returns ([], w2)
        → connect_loop p pal (k + rounds) socket parameters timeout count w
          ≡ returns (failed_lines p pal timeout count k, w2)
    connect_loop-Refuses zero count w w2 no_more h last =
        let a : 0 + rounds ≡ rounds = omega arith in
        let b : count ≡ count + 0 = omega arith in
        ap (λ n. connect_loop p pal n socket parameters timeout count w') a
        ∙ ap (λ n. connect_loop p pal rounds socket parameters timeout n w') b
        ∙ last
    connect_loop-Refuses (suc k) count w w2 (again {w1 = w1} e r) h last =
        let b : count + 1 + k ≡ count + suc k = omega arith in
        loop_step k count rounds w w1 e (omega arith)
        ∙ ap (λ m. m >>= λ r. returns (failed_line p pal (u32 (2 ^ count * timeout)) ∷ r.0, r.1))
            (connect_loop-Refuses k (count + 1) _ w2 r (omega arith) (rw b last))

    connect_loop_fault :
        (k count : ℕ) (w : pal.World)
        → Refuses pal socket parameters timeout w' count k w
        → count + k ≤ 31
        → connect_loop p pal rounds socket parameters timeout (count + k) w' ≡ fault
        → connect_loop p pal (k + rounds) socket parameters timeout count w ≡ fault
    connect_loop_fault zero count w no_more h last =
        let a : 0 + rounds ≡ rounds = omega arith in
        let b : count ≡ count + 0 = omega arith in
        ap (λ n. connect_loop p pal n socket parameters timeout count w') a
        ∙ ap (λ n. connect_loop p pal rounds socket parameters timeout n w') b
        ∙ last
    connect_loop_fault (suc k) count w (again {w1 = w1} e r) h last =
        let b : count + 1 + k ≡ count + suc k = omega arith in
        loop_step k count rounds w w1 e (omega arith)
        ∙ ap (λ m. m >>= λ r. returns (failed_line p pal (u32 (2 ^ count * timeout)) ∷ r.0, r.1))
            (connect_loop_fault k (count + 1) _ r (omega arith) (rw b last))

-- The call creates the socket, sets the first timeout, and then tries.
module _ (p : Platform) (pal : Pal) (parameters : PmuConnectionData) (timeout k rounds : ℕ)
    (send receive : List ℕ) (w w0 w1 w2 : pal.World) (socket : ℕ)
    (created : pal.socket_create w ≡ (socket, w0))
    (refused : Refuses pal socket parameters timeout w1 0 k
      (pal.set_connect_timeout socket timeout w0)) where
  -- If the server refuses at most 31 attempts and then accepts, the call returns the new client, with the
  -- low 16 bits of the identification code, in one round more than the refused attempts; the timeouts
  -- between them are the first one times 1, 2, 4 and so on, and each is printed.
  pub connect-Refuses :
      k ≤ 31
      → k < rounds
      → pal.socket_connect socket parameters.ip_address_pmu_server parameters.pmu_port_number w1
        ≡ (true, w2)
      → connect p pal rounds send receive parameters timeout w
        ≡ returns (
          greeting p pal parameters ++ failed_lines p pal timeout 0 k,
          new_client p pal send receive (u16 (uint32 parameters.pmu_id_code)) socket,
          w2,
        )
  unfolding connect connect_loop
  connect-Refuses few more accepted =
      let left : rounds ≡ k + suc (rounds - suc k) = omega arith in
      rw (created, left)
        (rw
          (connect_loop-Refuses p pal socket parameters timeout w1 (suc (rounds - suc k)) k 0 _ w2
            refused (omega arith) (rw accepted refl))
          refl)

  -- If the server refuses 32 attempts, the call converts 2 ^ 31 to an `int`, which has no value.
  pub connect_overflow :
      k ≡ 31
      → k < rounds
      → pal.socket_connect socket parameters.ip_address_pmu_server parameters.pmu_port_number w1
        ≡ (false, w2)
      → connect p pal rounds send receive parameters timeout w ≡ fault
  unfolding connect connect_loop backoff
  connect_overflow last more refused_too =
      let left : rounds ≡ k + suc (rounds - suc k) = omega arith in
      rw (created, left)
        (rw
          (connect_loop_fault p pal socket parameters timeout w1 (suc (rounds - suc k)) k 0 _
            refused (omega arith) (rw (last, refused_too) refl))
          refl)
