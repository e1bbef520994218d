-- ===== src/Wire/RoundTrip.antt =====
-- Printing an event and reading the line back: `Event.Bytes` and `ParseEvent`.
use girc.Prelude.{
  if◌then◌else◌, ◌>>=◌, Outcome, ℕ, ◌≡◌, ◌<◌, refl, sym, ap, ◌∙◌, arith, true, false, Option, none,
  some, List, [], ◌∷◌, ◌++◌, ltb, Bytes, length, length-append, all, index_byte, ok, ◌>>=◌,
  slice_from, slice_from-append,
}
use mathlib.Core.Path.{subst}
use girc.Source.{Source}
use girc.Event.{Event}
use girc.Tags.{tags_write, tag_bytes}
use girc.Wire.{
  Platform, trim_left, trim_right, command_at, after_source, parse_tags_part, after_tags, event_of,
  parse_event,
}
use girc.Wire.Print.{prefix_bytes, params_bytes, line_of, event_bytes}
use girc.Wire.Print.Length.{is_plain_byte, event_bytes-plain}
use girc.Wire.Plain.{
  ascii-word, is_command_byte, ascii-command, all-append, trim_right-plain, trim_right-endline,
  trim_left-plain,
}
use girc.Wire.Params.{command_at-params_bytes}
use girc.Wire.Words.{are_params}
use girc.Wire.Sender.{
  IsSender, plain-params_bytes, parse_source_part-prefix_bytes, plain-prefix_bytes,
  parse_tags_part-other, command_first, first_byte,
}

-- An event that its line determines.
pub record IsPrintable (p : Platform) (e : Event) : Type 0 where
  pub without_tags : e.tags ≡ none
  pub timestamp_now : e.timestamp ≡ p.now
  pub not_sensitive : e.sensitive ≡ false
  pub not_echo : e.echo ≡ false
  pub sender : IsSender e.source
  pub command_long : 1 < length e.command
  pub command_upper : all is_command_byte e.command ≡ true
  pub params_clear : are_params e.params ≡ true

module _ (p : Platform) (source : Option Source) (c : ℕ) (cs : Bytes) (params : List Bytes) where
  -- The line without tags.
  printed : Bytes
  printed = prefix_bytes source ++ ((c ∷ cs) ++ params_bytes params)

  event : Event
  event = event_of none p.now source (c ∷ cs, params)

  module _ (sender : IsSender source) (long : 1 < length (c ∷ cs))
      (upper_case : all is_command_byte (c ∷ cs) ≡ true) (clear : are_params params ≡ true) where
    printed-plain : all is_plain_byte printed ≡ true
    unfolding printed
    printed-plain =
        all-append is_plain_byte (prefix_bytes source) _ (plain-prefix_bytes source sender) (
          all-append is_plain_byte (c ∷ cs) _
            (ascii-word (c ∷ cs) (ascii-command (c ∷ cs) upper_case))
            (plain-params_bytes params clear))

    printed-long : ltb (length printed) 2 ≡ false
    unfolding printed
    printed-long = ground (
      arith,
      length-append (prefix_bytes source) ((c ∷ cs) ++ params_bytes params),
      length-append (c ∷ cs) (params_bytes params),
    )

    event_bytes-printed : event_bytes p event ≡ printed
    unfolding printed event event_of line_of tags_write tag_bytes
    event_bytes-printed = event_bytes-plain p event printed-plain

    after_source-printed :
        after_source p none p.now printed (some (source, length (prefix_bytes source)))
        ≡ ok (some event)
    unfolding printed event after_source
    after_source-printed =
        let front = length (prefix_bytes source) in
        let rest : slice_from printed front ≡ ok ((c ∷ cs) ++ params_bytes params) =
          slice_from-append (prefix_bytes source) _ front refl in
        let words =
          command_at-params_bytes p (prefix_bytes source) (c ∷ cs) params long upper_case clear in
        ap
          (λ o. o >>= λ r. command_at p printed front (index_byte r b' ') >>= λ w.
            ok (some (event_of none p.now source w)))
          rest
        ∙ ap (λ o. o >>= λ w. ok (some (event_of none p.now source w))) words

    parse_tags_part-printed : parse_tags_part p printed ≡ ok (some (none, p.now, printed))
    unfolding printed
    parse_tags_part-printed =
        let (y, ys, same, other) = first_byte source c cs (params_bytes params) upper_case in
        ap (parse_tags_part p) same
        ∙ parse_tags_part-other p y ys other
        ∙ ap (λ r. ok (some (none, p.now, r))) (sym same)

    parse_event-printed : parse_event p printed ≡ ok (some event)
    unfolding parse_event after_tags printed
    parse_event-printed =
        let trimmed : trim_left (trim_right printed) ≡ printed =
          ap trim_left (trim_right-plain printed printed-plain)
          ∙ trim_left-plain printed printed-plain in
        let source_read =
          parse_source_part-prefix_bytes source c (cs ++ params_bytes params) sender
            (command_first c cs upper_case).1 in
        rw (trimmed, printed-long)
          (ap (λ o. o >>= λ parsed. after_tags p parsed) parse_tags_part-printed
            ∙ ap (λ o. o >>= λ s. after_source p none p.now printed s) source_read
            ∙ after_source-printed)

    printed_bytes : all is_plain_byte (event_bytes p event) ≡ true
    printed_bytes = ap (all is_plain_byte) event_bytes-printed ∙ printed-plain

    read_back : parse_event p (event_bytes p event) ≡ ok (some event)
    read_back = ap (parse_event p) event_bytes-printed ∙ parse_event-printed

long_cons : (s : Bytes) → 1 < length s → (c : ℕ) × (cs : Bytes) × (s ≡ c ∷ cs)
long_cons [] h = absurd (omega arith)
long_cons (c ∷ cs) h = (c, cs, refl)

-- The rest of ParseEvent, once the line is trimmed.
parse_trimmed : Platform → Bytes → Outcome (Option Event)
parse_trimmed p raw =
    if ltb (length raw) 2 then ok none else do parsed ← parse_tags_part p raw; after_tags p parsed

event_eq :
    (p : Platform) (e : Event) (c : ℕ) (cs : Bytes)
    → IsPrintable p e
    → e.command ≡ c ∷ cs
    → event p e.source c cs e.params ≡ e
unfolding event event_of
event_eq p e c cs h same =
    ap
      (λ t. record e {
        tags = t;
        timestamp = p.now;
        command = c ∷ cs;
        sensitive = false;
        echo = false;
      })
      (sym h.without_tags)
    ∙ ap (λ n. record e { timestamp = n; command = c ∷ cs; sensitive = false; echo = false })
        (sym h.timestamp_now)
    ∙ ap (λ w. record e { command = w; sensitive = false; echo = false }) (sym same)
    ∙ ap (λ b. record e { sensitive = b; echo = false }) (sym h.not_sensitive)
    ∙ ap (λ b. record e { echo = b }) (sym h.not_echo)

-- A printed event is read back: an event without tags whose timestamp is the time of reading,
-- whose source (if any) its text determines, whose command has two or more upper-case letters or
-- digits, and whose parameters are words but for the last, which may be any ASCII text whose only
-- white space is " ".
pub parse_event-event_bytes :
    (p : Platform) (e : Event) → IsPrintable p e → parse_event p (event_bytes p e) ≡ ok (some e)
parse_event-event_bytes p e h =
    let (c, cs, same) = long_cons e.command h.command_long in
    subst (λ x. parse_event p (event_bytes p x) ≡ ok (some x)) (event_eq p e c cs h same)
      (read_back p e.source c cs e.params h.sender (subst (λ w. 1 < length w) same h.command_long)
        (subst (λ w. all is_command_byte w ≡ true) same h.command_upper) h.params_clear)

-- What a printable event is printed as has neither CR nor LF and is ASCII.
pub event_bytes-IsPrintable :
    (p : Platform) (e : Event) → IsPrintable p e → all is_plain_byte (event_bytes p e) ≡ true
event_bytes-IsPrintable p e h =
    let (c, cs, same) = long_cons e.command h.command_long in
    subst (λ x. all is_plain_byte (event_bytes p x) ≡ true) (event_eq p e c cs h same)
      (printed_bytes p e.source c cs e.params h.sender
        (subst (λ w. 1 < length w) same h.command_long)
        (subst (λ w. all is_command_byte w ≡ true) same h.command_upper) h.params_clear)

-- The end of the line makes no difference.
pub parse_event-endline :
    (p : Platform) (line : Bytes)
    → all is_plain_byte line ≡ true
    → parse_event p (line ++ (13 ∷ 10 ∷ [])) ≡ parse_event p line
unfolding parse_event parse_trimmed
parse_event-endline p line h =
    let trimmed : trim_right (line ++ (13 ∷ 10 ∷ [])) ≡ trim_right line =
      trim_right-endline line h ∙ sym (trim_right-plain line h) in
    ap (parse_trimmed p) (ap trim_left trimmed)
