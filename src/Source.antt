-- ===== src/Source.antt =====
-- `Source` of event.go: the sender of an event, `<nick> [ '!' <user> ] [ '@' <host> ]`.
pub mod Ascii
pub mod RoundTrip
use girc.Prelude.{
  ◌≡◌, ℕ, suc, ◌+◌, Bool, true, false, ◌&&◌, ◌||◌, Option, none, some, List, [], ◌∷◌, ◌++◌, ltb,
  if◌then◌else◌, Bytes, beq, is_empty, not, length, take, drop, index_byte,
}
use girc.Text.Fold.{to_rfc1459}

pub record Source : Type 0 where
  pub name : Bytes
  pub ident : Bytes
  pub host : Bytes

-- Source.ID
unfoldable pub id : Source → Bytes
id s = to_rfc1459 s.name

-- Source.Equals, on pointers that may be nil.
unfoldable pub equals : Option Source → Option Source → Bool
unfolding id
equals none none = true
equals none (some ss) = false
equals (some s) none = false
equals (some s) (some ss) =
    if not (beq (id s) (id ss)) || not (beq s.ident ss.ident) || not (beq s.host ss.host)
    then false
    else true

-- The switch of `ParseSource`, on the positions of "!" and "@".
source_at : Bytes → Option ℕ → Option ℕ → Source
source_at raw (some user) (some host) =
    if ltb 0 user && ltb user host
    then record {
      name = take user raw;
      ident = drop (user + 1) (take host raw);
      host = drop (host + 1) raw;
    }
    else if ltb 0 user
    then record { name = take user raw; ident = drop (user + 1) raw; host = [] }
    else if ltb 0 host
    then record { name = take host raw; ident = []; host = drop (host + 1) raw }
    else record { name = raw; ident = []; host = [] }
source_at raw (some user) none =
    if ltb 0 user
    then record { name = take user raw; ident = drop (user + 1) raw; host = [] }
    else record { name = raw; ident = []; host = [] }
source_at raw none (some host) =
    if ltb 0 host
    then record { name = take host raw; ident = []; host = drop (host + 1) raw }
    else record { name = raw; ident = []; host = [] }
source_at raw none none = record { name = raw; ident = []; host = [] }

unfoldable pub parse_source : Bytes → Source
unfolding source_at
parse_source raw = source_at raw (index_byte raw b'!') (index_byte raw b'@')

-- Source.Len
unfoldable pub len : Source → ℕ
len s =
    let named = length s.name in
    let identified = if ltb 0 (length s.ident) then 1 + named + length s.ident else named in
    if ltb 0 (length s.host) then 1 + identified + length s.host else identified

-- Source.String
unfoldable pub string : Source → Bytes
string s =
    let named = s.name in
    let identified = if ltb 0 (length s.ident) then named ++ (b'!' ∷ s.ident) else named in
    if ltb 0 (length s.host) then identified ++ (b'@' ∷ s.host) else identified

-- Source.writeTo: what is in the buffer afterwards.
unfoldable pub write_to : Source → Bytes → Bytes
write_to s buffer =
    let named = buffer ++ s.name in
    let identified = if ltb 0 (length s.ident) then (named ++ b'!' ∷ []) ++ s.ident else named in
    if ltb 0 (length s.host) then (identified ++ b'@' ∷ []) ++ s.host else identified

-- Source.Bytes
unfoldable pub bytes : Source → Bytes
unfolding write_to
bytes s = write_to s []

-- Source.IsHostmask
unfoldable pub is_hostmask : Source → Bool
is_hostmask s = ltb 0 (length s.ident) && ltb 0 (length s.host)

-- Source.IsServer
unfoldable pub is_server : Source → Bool
is_server s = is_empty s.ident && is_empty s.host
