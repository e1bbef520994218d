-- ===== src/Source/Ascii.antt =====
-- The parts that `ParseSource` cuts out of an ASCII text are ASCII.
use girc.Prelude.{
  ℕ, ◌&&◌, Option, none, some, ltb, Bytes, IsAscii, All-take, index_byte, Bool-cases, inl, inr,
}
use girc.Source.{parse_source, source_at}

name-source_at-IsAscii :
    (raw : Bytes) (user host : Option ℕ) → IsAscii raw → IsAscii (source_at raw user host).name
unfolding parse_source
name-source_at-IsAscii raw (some user) (some host) h =
    elim (Bool-cases (ltb 0 user && ltb user host)) [
      | inl e ↦ rw e (All-take _ user raw h)
      | inr e ↦ rw e (elim (Bool-cases (ltb 0 user)) [
        | inl f ↦ rw f (All-take _ user raw h)
        | inr f ↦ rw f (elim (Bool-cases (ltb 0 host)) [
          | inl g ↦ rw g (All-take _ host raw h)
          | inr g ↦ rw g h
        ])
      ])
    ]
name-source_at-IsAscii raw (some user) none h = elim (Bool-cases (ltb 0 user)) [
  | inl f ↦ rw f (All-take _ user raw h)
  | inr f ↦ rw f h
]
name-source_at-IsAscii raw none (some host) h = elim (Bool-cases (ltb 0 host)) [
  | inl f ↦ rw f (All-take _ host raw h)
  | inr f ↦ rw f h
]
name-source_at-IsAscii raw none none h = h

pub name-parse_source-IsAscii : (raw : Bytes) → IsAscii raw → IsAscii (parse_source raw).name
unfolding parse_source
name-parse_source-IsAscii raw =
    name-source_at-IsAscii raw (index_byte raw b'!') (index_byte raw b'@')
