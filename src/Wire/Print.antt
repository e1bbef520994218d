-- ===== src/Wire/Print.antt =====
-- event.go: `Event.Bytes` and `Event.LenOpts`.
pub mod Length
use girc.Prelude.{
  ℕ, ◌+◌, Bool, ◌||◌, Option, none, some, List, [], ◌∷◌, ◌++◌, ltb, if◌then◌else◌, Bytes, has_byte,
  has_prefix, length, is_empty,
}
use girc.Source.{Source, write_to, len}
use girc.Event.{Event}
use girc.Tags.{tags_write, tags_len}
use girc.Wire.{Platform, is_ascii, is_cr}

-- Whether the last parameter is printed behind ":".
unfoldable pub needs_colon : Bytes → Bool
needs_colon param = has_byte param b' ' || is_empty param || has_prefix param (b':' ∷ [])

-- The loop over the parameters.
unfoldable pub params_bytes : List Bytes → Bytes
unfolding needs_colon
params_bytes [] = []
params_bytes (param ∷ []) = if needs_colon param then b' ' ∷ b':' ∷ param else b' ' ∷ param
params_bytes (param ∷ next ∷ params) = (b' ' ∷ param) ++ params_bytes (next ∷ params)

-- bytes.ToValidUTF8(b, nil)
unfoldable pub to_valid : Platform → Bytes → Bytes
unfolding is_ascii
to_valid p s = if is_ascii s then s else p.unicode_valid s

-- The loop that strips newlines and carriage returns.
unfoldable pub strip_newlines : Bytes → Bytes
unfolding is_cr
strip_newlines [] = []
strip_newlines (c ∷ cs) = let rest = strip_newlines cs in if is_cr c then rest else c ∷ rest

unfoldable pub prefix_bytes : Option Source → Bytes
prefix_bytes none = []
prefix_bytes (some source) = write_to source (b':' ∷ []) ++ (b' ' ∷ [])

-- What Event.Bytes writes to its buffer.
unfoldable pub line_of : Event → Bytes
unfolding prefix_bytes params_bytes
line_of e = tags_write e.tags ++ (prefix_bytes e.source ++ (e.command ++ params_bytes e.params))

-- Event.Bytes
unfoldable pub event_bytes : Platform → Event → Bytes
unfolding line_of to_valid strip_newlines
event_bytes p e = strip_newlines (to_valid p (line_of e))

-- The loop of `LenOpts` over the parameters.
unfoldable pub params_len : List Bytes → ℕ
unfolding needs_colon
params_len [] = 0
params_len (param ∷ []) = length param + (if needs_colon param then 1 else 0)
params_len (param ∷ next ∷ params) = length param + params_len (next ∷ params)

-- Event.LenOpts, which does not read `includeTags`
unfoldable pub len_opts : Event → Bool → ℕ
unfolding params_len
len_opts e include_tags =
    elim e.tags [ none ↦ 0 | some tags ↦ tags_len (some tags) + 1 ]
    + elim e.source [ none ↦ 0 | some source ↦ len source + 2 ]
    + length e.command
    + (if ltb 0 (length e.params) then length e.params + params_len e.params else 0)
