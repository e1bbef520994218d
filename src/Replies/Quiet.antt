-- ===== src/Replies/Quiet.antt =====
-- CTCP messages and the replies to them do not go on for ever.
use girc.Prelude.{
  ℕ, beq_iff, ◌≡◌, refl, ap, ◌∙◌, arith, lookup-insert, true, false, not, ◌&&◌, Option, none, some,
  List, [], ◌∷◌, ◌++◌, if◌then◌else◌, Bytes, codes, beq, is_empty, Outcome, ok, ◌>>=◌, lookup, All,
  All-append, branches,
}
use girc.Wire.{Platform}
use girc.Source.{Source, id}
use girc.Text.Valid.{is_valid_nick}
use girc.Event.{Event, plain_event}
use girc.Ctcp.{CtcpEvent, decode_ctcp, encode_ctcp_raw}
use girc.Ctcp.Fields.{IsDecoded, refused, taken, decode_ctcp-IsDecoded}
use girc.Actions.{Action, send}
use girc.Commands.{send_ctcp_reply, notice}
use girc.Replies.{
  CtcpHandler, CtcpTable, Texts, set, answer, handle_ctcp_ping, handle_ctcp_pong,
  handle_ctcp_version, handle_ctcp_source, handle_ctcp_time, handle_ctcp_finger, finger_from,
  add_default_handlers, clear_all, call_wildcard, call_command, call, unknown_from, parse_cmd,
  called, run_ctcp,
}

-- A notice to the user.
abbrev pub NoticeTo : Bytes → Action → Type 0
NoticeTo target a = (text : Bytes) × (a ≡ send (plain_event (codes "NOTICE") (target ∷ text ∷ [])))

-- What is to become of a message with a source: only notices to the source are handed to
-- Client.Send, and nothing for a reply.
abbrev pub Answers : CtcpEvent → Source → Outcome (List Action) → Type 0
Answers ctcp source result =
    (actions : List Action) × (result ≡ ok actions)
    × All (NoticeTo (id source)) actions
    × (ctcp.reply ≡ true → actions ≡ [])

-- A handler of which that holds.
abbrev IsQuiet : CtcpHandler → Type 0
IsQuiet handler =
    (ctcp : CtcpEvent) (source : Source)
    → ctcp.source ≡ some source
    → Answers ctcp source (handler ctcp)

abbrev QuietOption : Option CtcpHandler → Type 0
QuietOption none = Unit
QuietOption (some handler) = IsQuiet handler

abbrev QuietTable : CtcpTable → Type 0
QuietTable table = (k : Bytes) → QuietOption (lookup k table)

silence-Answers : (ctcp : CtcpEvent) (source : Source) → Answers ctcp source (ok [])
silence-Answers ctcp source = ([], refl, tt, λ _. refl)

reply-Answers :
    (ctcp : CtcpEvent) (source : Source) (c : _) (cs text : Bytes)
    → ctcp.reply ≡ false
    → Answers ctcp source (send_ctcp_reply (id source) (c ∷ cs) text)
unfolding send_ctcp_reply notice encode_ctcp_raw
reply-Answers ctcp source c cs text h = (_, refl, ((_, refl), tt), λ e. absurd (ground arith))

answer-Answers :
    (ctcp : CtcpEvent) (source : Source) (c : _) (cs text : Bytes)
    → ctcp.source ≡ some source
    → Answers ctcp source (if ctcp.reply then ok [] else answer ctcp.source (c ∷ cs) text)
unfolding answer
answer-Answers ctcp source c cs text h =
    branches (Answers ctcp source) ctcp.reply _ _ (λ _. silence-Answers ctcp source)
      (λ e. rw h (reply-Answers ctcp source c cs text e))

ping-IsQuiet : IsQuiet handle_ctcp_ping
unfolding handle_ctcp_ping
ping-IsQuiet ctcp source h = answer-Answers ctcp source _ _ ctcp.text h

pong-IsQuiet : IsQuiet handle_ctcp_pong
unfolding handle_ctcp_pong
pong-IsQuiet ctcp source h = answer-Answers ctcp source _ _ [] h

version-IsQuiet : (texts : Texts) → IsQuiet (handle_ctcp_version texts)
unfolding handle_ctcp_version answer
version-IsQuiet texts ctcp source h =
    branches (Answers ctcp source) ctcp.reply _ _ (λ _. silence-Answers ctcp source)
      (λ e. rw h (
        branches (Answers ctcp source) (not (is_empty texts.version)) _ _
          (λ _. reply-Answers ctcp source _ _ texts.version e)
          (λ _. reply-Answers ctcp source _ _ texts.built_with e)))

source-IsQuiet : IsQuiet handle_ctcp_source
unfolding handle_ctcp_source
source-IsQuiet ctcp source h = answer-Answers ctcp source _ _ _ h

time-IsQuiet : (texts : Texts) → IsQuiet (handle_ctcp_time texts)
unfolding handle_ctcp_time
time-IsQuiet texts ctcp source h = answer-Answers ctcp source _ _ _ h

finger-IsQuiet :
    (texts : Texts) (active : ℕ)
    → texts.last_active ≡ some active
    → IsQuiet (handle_ctcp_finger texts)
unfolding handle_ctcp_finger finger_from
finger-IsQuiet texts active connected ctcp source h =
    rw connected (answer-Answers ctcp source _ _ (texts.finger active) h)

set-QuietTable :
    (p : Platform) (cmd : Bytes) (handler : CtcpHandler) (table : CtcpTable)
    → IsQuiet handler
    → QuietTable table
    → QuietTable (set p cmd handler table)
unfolding set
set-QuietTable p cmd handler table quiet h =
    branches QuietTable (is_empty (parse_cmd p cmd)) _ _ (λ _. h)
      (λ _ k.
        rw (lookup-insert (parse_cmd p cmd) k handler table)
          (branches QuietOption (beq (parse_cmd p cmd) k) _ _ (λ _. quiet) (λ _. h k)))

nil-QuietTable : QuietTable []
unfolding lookup
nil-QuietTable k = tt

default-QuietTable :
    (p : Platform) (texts : Texts) (active : ℕ)
    → texts.last_active ≡ some active
    → QuietTable (clear_all p texts)
unfolding clear_all add_default_handlers
default-QuietTable p texts active connected =
    set-QuietTable p _ _ _ (finger-IsQuiet texts active connected) (
      set-QuietTable p _ _ _ (time-IsQuiet texts) (
        set-QuietTable p _ _ _ source-IsQuiet (
          set-QuietTable p _ _ _ (version-IsQuiet texts) (
            set-QuietTable p _ _ _ pong-IsQuiet
              (set-QuietTable p _ _ _ ping-IsQuiet nil-QuietTable)))))

wildcard-Answers :
    (handler : Option CtcpHandler) (ctcp : CtcpEvent) (source : Source)
    → ctcp.source ≡ some source
    → QuietOption handler
    → Answers ctcp source (call_wildcard handler ctcp)
unfolding call_wildcard
wildcard-Answers none ctcp source h quiet = silence-Answers ctcp source
wildcard-Answers (some handler) ctcp source h quiet = quiet ctcp source h

unknown-Answers :
    (ctcp : CtcpEvent) (source : Source) → Answers ctcp source (unknown_from ctcp (some source))
unfolding unknown_from
unknown-Answers ctcp source =
    branches (Answers ctcp source) (not ctcp.reply && is_valid_nick (id source)) _ _
      (λ e. reply-Answers ctcp source _ _ _ (ground arith)) (λ _. silence-Answers ctcp source)

command-Answers :
    (handler : Option CtcpHandler) (ctcp : CtcpEvent) (source : Source)
    → ctcp.source ≡ some source
    → QuietOption handler
    → Answers ctcp source (call_command handler ctcp)
unfolding call_command
command-Answers none ctcp source h quiet =
    branches (Answers ctcp source) (beq ctcp.command (codes "ACTION")) _ _
      (λ _. silence-Answers ctcp source) (λ _. rw h (unknown-Answers ctcp source))
command-Answers (some handler) ctcp source h quiet = quiet ctcp source h

both-Answers :
    (ctcp : CtcpEvent) (source : Source) (first second : Outcome (List Action))
    → Answers ctcp source first
    → Answers ctcp source second
    → Answers ctcp source (first >>= λ a. second >>= λ b. ok (a ++ b))
both-Answers ctcp source first second (a, p, x, m) (b, q, y, n) = (
  a ++ b,
  ap (λ r. r >>= λ a. second >>= λ b. ok (a ++ b)) p ∙ ap (λ r. r >>= λ b. ok (a ++ b)) q,
  All-append _ a b x y,
  λ e. rw (m e) (n e),
)

call-Answers :
    (table : CtcpTable) (ctcp : CtcpEvent) (source : Source)
    → ctcp.source ≡ some source
    → QuietTable table
    → Answers ctcp source (call table ctcp)
unfolding call
call-Answers table ctcp source h quiet =
    both-Answers ctcp source _ _
      (wildcard-Answers (lookup (codes "*") table) ctcp source h (quiet (codes "*")))
      (command-Answers (lookup ctcp.command table) ctcp source h (quiet ctcp.command))

called-Answers :
    (table : CtcpTable) (e : Event) (source : Source) (ctcp : Option CtcpEvent)
    → e.source ≡ some source
    → QuietTable table
    → IsDecoded e ctcp
    → (actions : List Action) × (called table ctcp ≡ ok actions)
      × All (NoticeTo (id source)) actions
      × (e.command ≡ codes "NOTICE" → actions ≡ [])
unfolding called
called-Answers table e source none h quiet refused = ([], refl, tt, λ _. refl)
called-Answers table e source (some ctcp) h quiet (taken c p q) =
    let (actions, result, notices, silent) = call-Answers table ctcp source (p ∙ h) quiet in
    (actions, result, notices, λ n. silent (q ∙ (beq_iff e.command (codes "NOTICE")).1 n))

-- With the default handlers and on a client that has a connection, all that RunHandlers hands to
-- Client.Send for a CTCP message that has a source is notices to that source, and nothing for a
-- notice, so no reply is ever answered; and no handler panics before it calls Client.Send.
pub run_ctcp_answers :
    (p : Platform) (texts : Texts) (active : ℕ) (e : Event) (source : Source)
    → texts.last_active ≡ some active
    → e.source ≡ some source
    → (actions : List Action) × (run_ctcp (clear_all p texts) e ≡ ok actions)
      × All (NoticeTo (id source)) actions
      × (e.command ≡ codes "NOTICE" → actions ≡ [])
unfolding run_ctcp
run_ctcp_answers p texts active e source connected h =
    called-Answers (clear_all p texts) e source (decode_ctcp e) h
      (default-QuietTable p texts active connected) (decode_ctcp-IsDecoded e)
