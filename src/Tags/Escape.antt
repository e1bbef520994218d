-- ===== src/Tags/Escape.antt =====
-- Escaping a tag value and reading it back.
use girc.Prelude.{ℕ, ◌≡◌, refl, ap, arith, [], ◌∷◌, ◌++◌, Bytes}
use girc.Tags.{encode, decode, encode_byte}

-- The first byte of an escaped value is decoded alone, whatever follows it.
decode-encode_byte : (c : ℕ) (rest : Bytes) → decode (encode_byte c ++ rest) ≡ c ∷ decode rest
unfolding decode encode_byte
decode-encode_byte c [] = ground arith
decode-encode_byte c (y ∷ rest) = ground arith

-- `tagDecoder` reads back what `tagEncoder` writes, for every value.
pub decode-encode : (s : Bytes) → decode (encode s) ≡ s
unfolding encode decode
decode-encode [] = refl
decode-encode (c ∷ s) = rw decode-encode_byte (ap (◌∷◌ c) (decode-encode s))
