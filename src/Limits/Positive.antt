-- ===== src/Limits/Positive.antt =====
-- Some room for an event is left.
use girc.Prelude.{
  ◌-◌, ℕ, suc, zero, ◌+◌, ◌%◌, ◌≡◌, refl, arith, ltb, Bool, true, false, not, if◌then◌else◌, codes,
  length, drop, drop_last, ℤ, pos, negsuc, less, wrap, ltb-zero-suc, ◌+ℤ◌, opposite, branches,
}
use girc.Text.Glob.{has_suffix}
use girc.Event.{Event, last}
use girc.Limits.{
  Limits, reset, get_server_option_int, get_server_option, larger_option, max_event_length,
  option_or, prefix_length, set_options, set_prefix, set_lengths, handle_isupport,
}

-- The prefix is not negative and shorter than a line, and a line is at most 4092 bytes long.
abbrev pub IsSound : Limits → Type 0
IsSound s =
    (less s.max_prefix_length (pos 0) ≡ false)
    × (less s.max_prefix_length s.max_line_length ≡ true)
    × (less (pos 4092) s.max_line_length ≡ false)

-- What the options say is sound: LINELEN, if it is a number, is at most 4092, and the lengths of a
-- prefix do not add up to less than 0.
abbrev pub IsUsable : Limits → Type 0
IsUsable s =
    (less (pos 4092) (option_or s (codes "LINELEN") s.max_line_length) ≡ false)
    × (less (prefix_length s) (pos 0) ≡ false)

less-le : (a b c : ℤ) → less a b ≡ true → less c b ≡ false → less a c ≡ true
less-le (pos a) (pos b) (pos c) h k = ground arith
less-le (pos a) (pos b) (negsuc c) h k = ground arith
less-le (pos a) (negsuc b) (pos c) h k = ground arith
less-le (pos a) (negsuc b) (negsuc c) h k = ground arith
less-le (negsuc a) (pos b) (pos c) h k = ground arith
less-le (negsuc a) (pos b) (negsuc c) h k = ground arith
less-le (negsuc a) (negsuc b) (pos c) h k = ground arith
less-le (negsuc a) (negsuc b) (negsuc c) h k = ground arith

wrap-small : (n : ℕ) → ltb n 5000 ≡ true → wrap (pos n) ≡ pos n
unfolding wrap
wrap-small n h =
    let same : n % 18446744073709551616 ≡ n = ground arith in
    let small : ltb n 9223372036854775808 ≡ true = ground arith in rw same (rw small refl)

room :
    (prefix line : ℤ)
    → less prefix (pos 0) ≡ false
    → less prefix line ≡ true
    → less (pos 4092) line ≡ false
    → less (pos 0) (wrap (line +ℤ opposite prefix)) ≡ true
room (pos zero) (pos b) g h k = rw (wrap-small (b + 0) (ground arith)) (ground arith)
room (pos (suc a)) (pos b) g h k =
    let longer : ltb b (suc a - 0 - 1 + 1) ≡ false = ground arith in
    rw (ltb-zero-suc a)
      (rw longer (rw (wrap-small (b - (suc a - 0 - 1 + 1)) (ground arith)) (ground arith)))
room (pos a) (negsuc b) g h k = ground arith
room (negsuc a) (pos b) g h k = ground arith
room (negsuc a) (negsuc b) g h k = ground arith

room-pos : (s : Limits) → IsSound s → less (pos 0) (max_event_length false s) ≡ true
unfolding max_event_length
room-pos s (g, h, k) = room s.max_prefix_length s.max_line_length g h k

less_irrefl : (a : ℤ) → less a a ≡ false
less_irrefl (pos a) = ground arith
less_irrefl (negsuc a) = ground arith

-- The length of a prefix depends on the options alone.
prefix_length-line :
    (s : Limits) (line : ℤ) → prefix_length (record s { max_line_length = line }) ≡ prefix_length s
unfolding prefix_length larger_option option_or get_server_option_int get_server_option
prefix_length-line s line = refl

set_prefix-IsSound :
    (line : ℤ) (s : Limits)
    → IsSound s
    → less s.max_line_length line ≡ false
    → less (prefix_length s) (pos 0) ≡ false
    → IsSound (set_prefix line s)
unfolding set_prefix
set_prefix-IsSound line s h shorter positive =
    branches IsSound (not (less (prefix_length s) line)) _ _ (λ _. h)
      (λ e.
        (positive, less-le (prefix_length s) line s.max_line_length (ground arith) shorter, h.2))

lengths-IsSound :
    (given : Bool) (line : ℤ) (s : Limits)
    → IsSound s
    → less (pos 4092) (if given then line else s.max_line_length) ≡ false
    → less (prefix_length s) (pos 0) ≡ false
    → IsSound (
        set_prefix
          (if given then line else s.max_line_length)
          (if given then record s { max_line_length = pos (4094 - 2) } else s))
lengths-IsSound true line s h short positive =
    set_prefix-IsSound line (record s { max_line_length = pos (4094 - 2) })
      (h.0, less-le s.max_prefix_length s.max_line_length (pos 4092) h.1 h.2, refl) short
      (rw (prefix_length-line s (pos (4094 - 2))) positive)
lengths-IsSound false line s h short positive =
    set_prefix-IsSound s.max_line_length s h (less_irrefl s.max_line_length) positive

set_lengths-IsSound : (s : Limits) → IsSound s → IsUsable s → IsSound (set_lengths s)
unfolding set_lengths option_or
set_lengths-IsSound s h (short, positive) =
    lengths-IsSound (get_server_option_int s (codes "LINELEN")).1
      (get_server_option_int s (codes "LINELEN")).0 s h short positive

-- The options once the event is read.
abbrev pub with_options : Limits → Event → Limits
with_options s e = record s {
  server_options = set_options (drop 1 (drop_last e.params)) s.server_options;
}

-- The defaults leave room for an event, and so does the state after handleISUPPORT if it did
-- before, the prefix is not negative, no line is longer than 4092 bytes, a LINELEN among the
-- options is at most 4092, and the lengths of a nickname, user and host among them do not add up
-- to less than 0: then MaxEventLength stays above 0.
pub handle_isupport-IsSound :
    (s : Limits) (e : Event)
    → IsSound s
    → IsUsable (with_options s e)
    → IsSound reset
      × IsSound (handle_isupport s e)
      × (less (pos 0) (max_event_length false (handle_isupport s e)) ≡ true)
unfolding reset handle_isupport
handle_isupport-IsSound s e h usable =
    let after : IsSound (handle_isupport s e) =
      branches IsSound (not (has_suffix (last e) (codes "this server"))) _ _ (λ _. h)
        (λ _.
          branches IsSound (ltb (length e.params) 2) _ _ (λ _. h)
            (λ _. set_lengths-IsSound (with_options s e) h usable)) in
    ((refl, refl, refl), after, room-pos (handle_isupport s e) after)
