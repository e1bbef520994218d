-- ===== src/Tests/Sending.antt =====
-- Commands, SASL and the registry of handlers at concrete inputs.
use girc.Prelude.{
  index_byte, insert, lookup, beq, panic, is_some, ℕ, zero, suc, ◌+◌, ◌-◌, ◌/◌, ◌≡◌, arith, length,
  true, false, refl, ◌&&◌, none, some, List, [], ◌∷◌, codes, ok, Bytes, All, if◌then◌else◌, beq,
  keys, lookup, count,
}
use girc.Event.{Event, plain_event}
use girc.Actions.{Action}
use girc.Wire.{to_upper}
use girc.Tests.Lines.{platform}
use girc.Ctcp.{is_tag, decode_ctcp, encode_ctcp_raw}
use girc.Commands.Ctcps.{ctcp_event}
use girc.Replies.{Texts, clear_all as ctcp_defaults, run_ctcp}
use girc.Replies.Quiet.{NoticeTo, run_ctcp_answers}
use girc.Source.{Source, id}
use girc.Sasl.{chunks}
use girc.Sasl.Chunks.{payload, IsChunk, chunks_lem}
use girc.Registry.{
  Caller, new_caller, handlers_at, register, remove, cuid, with_bg, clear, clear_all, len,
  count_for, run_handlers,
}
use girc.Registry.Refine.{at, Removes, registry_refines}
use girc.Registry.Size.{HasUniqueIds, Shrinks, len_lem}
use girc.Registry.Exec.{runs, registered, runs-run_handlers}

abbrev channels : List Bytes
channels = codes "#a" ∷ codes "#bb" ∷ codes "#ccc" ∷ codes "#d" ∷ []

version-is_tag : is_tag (codes "VERSION") ≡ true
unfolding is_tag
version-is_tag = refl

-- A response of `n` letters.
abbrev letters : ℕ → Bytes
letters zero = []
letters (suc n) = b'a' ∷ letters n

chunks_lem_example :
    (actions : List Action) × (chunks 405 (letters 405) ≡ ok actions)
    × All IsChunk actions
    × (length (payload actions) + (length (letters 405) - 1) / 400 ≡ length (letters 405))
chunks_lem_example = chunks_lem 405 (letters 405) (omega arith) (omega arith)

-- A registry with two handlers, 1 for PING and 2 for all events.
abbrev caller : Caller ℕ
caller =
    (register platform (codes "aaa") false true (codes "ping") 1
      (register platform (codes "bbb") true false (codes "*") 2 new_caller).0).0

registry_refines_example :
    ((k i : Bytes)
      → at (register platform (codes "ccc") false true (codes "PING") 3 caller).0 k i ≡ (
          if beq (to_upper platform (codes "PING")) k && beq (with_bg true (codes "ccc")) i
          then some 3
          else at caller k i))
    × ((k i : Bytes)
        → at (clear platform caller (codes "PING")) k i
          ≡ (if beq (to_upper platform (codes "PING")) k then none else at caller k i))
    × ((k i : Bytes) → at (clear_all caller) k i ≡ none)
    × Removes
        (codes "PING")
        (codes "ccc")
        caller
        (remove caller (cuid (codes "PING") (codes "ccc")))
registry_refines_example =
    registry_refines platform caller (codes "ccc") true (codes "PING") 3 (omega arith) refl refl

abbrev no_handlers : Caller ℕ
no_handlers = new_caller

no_handlers-HasUniqueIds : HasUniqueIds no_handlers.external
unfolding new_caller handlers_at lookup keys count
no_handlers-HasUniqueIds cmd uid = omega arith

len_lem_example :
    HasUniqueIds
      (register platform (codes "ccc") false true (codes "PING") 3 no_handlers).0.external
    × (len (register platform (codes "ccc") false true (codes "PING") 3 no_handlers).0
        ≡ len no_handlers
          + (if is_some
                (at no_handlers (to_upper platform (codes "PING")) (with_bg true (codes "ccc")))
              then 0
              else 1))
    × HasUniqueIds (clear platform no_handlers (codes "PING")).external
    × (len (clear platform no_handlers (codes "PING"))
          + count_for platform no_handlers (codes "PING")
        ≡ len no_handlers)
    × Shrinks no_handlers (remove no_handlers (codes "PING:ccc"))
len_lem_example =
    len_lem platform no_handlers (codes "ccc") true (codes "PING") (codes "PING:ccc") 3
      no_handlers-HasUniqueIds

runs-run_handlers_example :
    runs (codes "aaa:bg") (run_handlers caller (plain_event (codes "PING") []))
    ≡ registered caller (codes "*") (codes "aaa:bg")
      + (if (plain_event (codes "PING") []).echo
          then 0
          else registered caller (codes "PING") (codes "aaa:bg"))
runs-run_handlers_example =
    runs-run_handlers caller (plain_event (codes "PING") []) (codes "aaa:bg")

abbrev texts : Texts
texts = record {
  version = [];
  built_with = codes "girc";
  time = codes "now";
  finger = λ active. codes "me";
  last_active = some 5;
}

abbrev bob : Source
bob = record { name = codes "bob"; ident = []; host = [] }

-- A CTCP message from bob.
abbrev version_request : Event
version_request = record (ctcp_event (codes "PRIVMSG") (codes "me") (codes "VERSION") []) {
  source = some bob;
}

run_ctcp_answers_example :
    (actions : List Action) × (run_ctcp (ctcp_defaults platform texts) version_request ≡ ok actions)
    × All (NoticeTo (id bob)) actions
    × (version_request.command ≡ codes "NOTICE" → actions ≡ [])
run_ctcp_answers_example = run_ctcp_answers platform texts 5 version_request bob refl refl

-- FINGER on a client that is not connected.
finger-panics :
    run_ctcp
      (ctcp_defaults platform record texts { last_active = none })
      (record (ctcp_event (codes "PRIVMSG") (codes "me") (codes "FINGER") []) { source = some bob })
    ≡ panic
unfolding run_ctcp ctcp_defaults decode_ctcp encode_ctcp_raw beq index_byte lookup to_upper insert
finger-panics = refl
