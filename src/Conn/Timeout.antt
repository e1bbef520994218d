-- ===== src/Conn/Timeout.antt =====
-- When the keep-alive loop gives up.
use girc.Prelude.{
  ℕ, ◌+◌, ◌-◌, ◌≤◌, ◌≡◌, refl, sym, ap, ◌∙◌, arith, true, false, not, ◌&&◌, Option, none, some,
  List, [], ◌∷◌, ◌++◌, ltb, less, pos, ◌+ℤ◌, wrap, Bytes, Bool-cases, inl, inr,
}
use girc.Conn.{PingConfig, Pinging, TimedOut, Tick, goes_on, times_out, is_late, send_ping, tick}

module _ (itoa : ℕ → Bytes) (config : PingConfig) where
  after : Tick → (Pinging → Option TimedOut) → Option TimedOut
  after (goes_on s actions) again = again s
  after (times_out error) again = some error

  -- pingLoop on ticks at these points of time, with no PONG between them: the error, if there is one.
  unfoldable pub ticks : List ℕ → Pinging → Option TimedOut
  unfolding after
  ticks [] s = none
  ticks (now ∷ times) s = after (tick itoa config now s) (λ s'. ticks times s')

  -- The delay and the timeout can be added without an overflow.
  abbrev pub Adds : Type 0
  Adds = wrap (config.ping_delay +ℤ config.ping_timeout) ≡ config.ping_delay +ℤ config.ping_timeout

  -- The error is about the last PONG, which is longer ago than the sum of the delay and the timeout.
  abbrev HasEnded : ℕ → Option TimedOut → Type 0
  HasEnded last_pong result =
      (error : TimedOut) × (result ≡ some error)
      × (error.last_pong ≡ last_pong)
      × (less (wrap (config.ping_delay +ℤ config.ping_timeout)) (pos error.time_since_success)
          ≡ true)

  tick-past :
      (now : ℕ) (s : Pinging) → s.past ≡ true → tick itoa config now s ≡ send_ping itoa config now s
  unfolding tick
  tick-past now s h = rw h refl

  -- The state once a PING is sent.
  abbrev pinged : ℕ → Pinging → Pinging
  pinged now s = record s { past = true; ping_sent = true; last_ping = now }

  -- A tick that is past the delay during connect, with `again` the ticks that follow.
  after_ping-HasEnded :
      (now : ℕ) (s : Pinging) (again : Pinging → Option TimedOut)
      → HasEnded s.last_pong (again (pinged now s))
      → HasEnded s.last_pong (after (send_ping itoa config now s) again)
  unfolding after send_ping is_late
  after_ping-HasEnded now s again h =
      elim (Bool-cases (s.ping_sent && is_late config s.last_pong now)) [
        | inl e ↦ rw e (_, refl, refl, ground arith)
        | inr e ↦ rw e h
      ]

  -- A late tick ends the loop.
  late_tick-HasEnded :
      (late : ℕ) (s : Pinging) (again : Pinging → Option TimedOut)
      → s.ping_sent ≡ true
      → is_late config s.last_pong late ≡ true
      → HasEnded s.last_pong (after (send_ping itoa config late s) again)
  unfolding after send_ping is_late
  late_tick-HasEnded late s again sent e = rw sent (rw e (_, refl, refl, e))

  -- Once a PING is sent, a late tick ends the loop if it has not ended before.
  late-HasEnded :
      (times : List ℕ) (late : ℕ) (s : Pinging)
      → s.ping_sent ≡ true
      → s.past ≡ true
      → is_late config s.last_pong late ≡ true
      → HasEnded s.last_pong (ticks (times ++ (late ∷ [])) s)
  unfolding ticks
  late-HasEnded [] late s sent past e =
      rw (tick-past late s past) (late_tick-HasEnded late s (λ s'. none) sent e)
  late-HasEnded (now ∷ times) late s sent past e = rw (tick-past now s past) (
      after_ping-HasEnded now s (λ s'. ticks (times ++ (late ∷ [])) s')
        (late-HasEnded times late (pinged now s) refl refl e))

  ticks-HasEnded :
      (s : Pinging) (first : ℕ) (times : List ℕ) (late : ℕ)
      → s.started + 30000000000 ≤ first
      → is_late config s.last_pong late ≡ true
      → HasEnded s.last_pong (ticks (first ∷ (times ++ (late ∷ []))) s)
  unfolding ticks tick
  ticks-HasEnded s first times late h e =
      let past : ltb (first - s.started) 30000000000 ≡ false = ground arith in
      let registered : (not s.past && ltb (first - s.started) 30000000000) ≡ false = ground arith in
      rw registered (
        after_ping-HasEnded first s (λ s'. ticks (times ++ (late ∷ [])) s')
          (late-HasEnded times late (pinged first s) refl refl e))

  -- The error is about the last PONG, which is longer ago than the delay and the timeout.
  abbrev pub IsTimeout : ℕ → Option TimedOut → Type 0
  IsTimeout last_pong result =
      (error : TimedOut) × (result ≡ some error)
      × (error.last_pong ≡ last_pong)
      × (less (config.ping_delay +ℤ config.ping_timeout) (pos error.time_since_success) ≡ true)

  -- If the delay and the timeout can be added without an overflow, no PONG comes, and a tick stands
  -- 30 seconds after the start or later, pingLoop has ended with the error of a timeout by any
  -- later tick that is longer after the last PONG than the delay and the timeout; and the error
  -- says a time since that PONG that is longer than they are.
  pub ticks-IsTimeout :
      (s : Pinging) (first : ℕ) (times : List ℕ) (late : ℕ)
      → Adds
      → s.started + 30000000000 ≤ first
      → less (config.ping_delay +ℤ config.ping_timeout) (pos (late - s.last_pong)) ≡ true
      → IsTimeout s.last_pong (ticks (first ∷ (times ++ (late ∷ []))) s)
  unfolding is_late
  ticks-IsTimeout s first times late adds h e =
      let (error, result, same, longer) = ticks-HasEnded s first times late h (rw adds e) in
      (error, result, same, ap (λ d. less d (pos error.time_since_success)) (sym adds) ∙ longer)
