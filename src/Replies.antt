-- ===== src/Replies.antt =====
-- ctcp.go: the table of CTCP handlers and the replies that it gives by default. A handler gives
-- what it hands to Client.Send, or panics before that; one that runs in the background is run at once.
-- The recovery of panics is not modelled.
pub mod Quiet
use girc.Prelude.{
  ℕ, Bool, true, false, not, ◌&&◌, Option, none, some, List, [], ◌∷◌, ◌++◌, if◌then◌else◌, Bytes,
  codes, beq, is_empty, Outcome, ok, panic, ◌>>=◌, Map, lookup, insert, delete,
}
use girc.Wire.{Platform, to_upper}
use girc.Source.{Source, id}
use girc.Text.Valid.{is_valid_nick}
use girc.Event.{Event}
use girc.Ctcp.{CtcpEvent, is_tag, decode_ctcp}
use girc.Actions.{Action}
use girc.Commands.{send_ctcp_reply}

-- CTCPHandler
abbrev pub CtcpHandler : Type 0
CtcpHandler = CtcpEvent → Outcome (List Action)

-- CTCP
abbrev pub CtcpTable : Type 0
CtcpTable = Map CtcpHandler

-- CTCP.parseCMD
unfoldable pub parse_cmd : Platform → Bytes → Bytes
parse_cmd p cmd =
    if beq cmd (codes "*")
    then codes "*"
    else if is_tag (to_upper p cmd)
    then to_upper p cmd
    else []

-- CTCP.Set, and CTCP.SetBg
unfoldable pub set : Platform → Bytes → CtcpHandler → CtcpTable → CtcpTable
unfolding parse_cmd
set p cmd handler table =
    if is_empty (parse_cmd p cmd) then table else insert (parse_cmd p cmd) handler table

-- CTCP.Clear
unfoldable pub clear : Platform → Bytes → CtcpTable → CtcpTable
unfolding parse_cmd
clear p cmd table = if is_empty (parse_cmd p cmd) then table else delete (parse_cmd p cmd) table

-- What the default replies are made from: Config.Version, the text about the Go runtime, the time
-- of day, Config.Name with the time since a point of time, and client.conn.lastActive, which is
-- `none` where client.conn is nil.
pub record Texts : Type 0 where
  pub version : Bytes
  pub built_with : Bytes
  pub time : Bytes
  pub finger : ℕ → Bytes
  pub last_active : Option ℕ

-- `client.Cmd.SendCTCPReply(ctcp.Source.ID(), tag, text)`
unfoldable pub answer : Option Source → Bytes → Bytes → Outcome (List Action)
answer none tag text = panic
answer (some source) tag text = send_ctcp_reply (id source) tag text

-- handleCTCPPing
unfoldable pub handle_ctcp_ping : CtcpHandler
unfolding answer
handle_ctcp_ping ctcp = if ctcp.reply then ok [] else answer ctcp.source (codes "PING") ctcp.text

-- handleCTCPPong
unfoldable pub handle_ctcp_pong : CtcpHandler
unfolding answer
handle_ctcp_pong ctcp = if ctcp.reply then ok [] else answer ctcp.source (codes "PONG") []

-- handleCTCPVersion
unfoldable pub handle_ctcp_version : Texts → CtcpHandler
unfolding answer
handle_ctcp_version texts ctcp =
    if ctcp.reply
    then ok []
    else if not (is_empty texts.version)
    then answer ctcp.source (codes "VERSION") texts.version
    else answer ctcp.source (codes "VERSION") texts.built_with

-- handleCTCPSource
unfoldable pub handle_ctcp_source : CtcpHandler
unfolding answer
handle_ctcp_source ctcp =
    if ctcp.reply
    then ok []
    else answer ctcp.source (codes "SOURCE") (codes "https://github.com/lrstanley/girc")

-- handleCTCPTime
unfoldable pub handle_ctcp_time : Texts → CtcpHandler
unfolding answer
handle_ctcp_time texts ctcp =
    if ctcp.reply then ok [] else answer ctcp.source (codes "TIME") (b':' ∷ texts.time)

-- handleCTCPFinger, which reads the connection without asking whether there is one
finger_from : Texts → CtcpEvent → Option ℕ → Outcome (List Action)
unfolding answer
finger_from texts ctcp none = panic
finger_from texts ctcp (some active) = answer ctcp.source (codes "FINGER") (texts.finger active)

unfoldable pub handle_ctcp_finger : Texts → CtcpHandler
unfolding finger_from
handle_ctcp_finger texts ctcp =
    if ctcp.reply then ok [] else finger_from texts ctcp texts.last_active

-- CTCP.addDefaultHandlers
unfoldable pub add_default_handlers : Platform → Texts → CtcpTable → CtcpTable
unfolding set handle_ctcp_ping handle_ctcp_pong handle_ctcp_version handle_ctcp_source
    handle_ctcp_time handle_ctcp_finger
add_default_handlers p texts table = set p (codes "FINGER") (handle_ctcp_finger texts) (
    set p (codes "TIME") (handle_ctcp_time texts) (
      set p (codes "SOURCE") handle_ctcp_source (
        set p (codes "VERSION") (handle_ctcp_version texts)
          (set p (codes "PONG") handle_ctcp_pong (set p (codes "PING") handle_ctcp_ping table)))))

-- CTCP.ClearAll
unfoldable pub clear_all : Platform → Texts → CtcpTable
unfolding add_default_handlers
clear_all p texts = add_default_handlers p texts []

-- CTCP.call: the handler of "*", if there is one.
unfoldable pub call_wildcard : Option CtcpHandler → CtcpHandler
call_wildcard none ctcp = ok []
call_wildcard (some handler) ctcp = handler ctcp

unknown_from : CtcpEvent → Option Source → Outcome (List Action)
unknown_from ctcp none = ok []
unknown_from ctcp (some source) =
    if not ctcp.reply && is_valid_nick (id source)
    then send_ctcp_reply (id source) (codes "ERRMSG") (codes "that is an unknown CTCP query")
    else ok []

-- CTCP.call: the handler of the command, or the reply where there is none.
unfoldable pub call_command : Option CtcpHandler → CtcpHandler
unfolding unknown_from
call_command none ctcp =
    if beq ctcp.command (codes "ACTION") then ok [] else unknown_from ctcp ctcp.source
call_command (some handler) ctcp = handler ctcp

-- CTCP.call
unfoldable pub call : CtcpTable → CtcpHandler
unfolding call_wildcard call_command
call table ctcp = do
  first ← call_wildcard (lookup (codes "*") table) ctcp
  second ← call_command (lookup ctcp.command table) ctcp
  ok (first ++ second)

called : CtcpTable → Option CtcpEvent → Outcome (List Action)
unfolding call
called table none = ok []
called table (some ctcp) = call table ctcp

-- Client.RunHandlers, behind the registered handlers.
unfoldable pub run_ctcp : CtcpTable → Event → Outcome (List Action)
unfolding called
run_ctcp table e = called table (decode_ctcp e)
