-- ===== src/Cap/Subcommands.antt =====
-- The subcommands of CAP are different texts.
use girc.Prelude.{◌≡◌, refl, arith, false, ◌&&◌, Bytes, codes, beq, beq_iff}

-- A text is not two different texts.
exclusive : (text a b : Bytes) → beq a b ≡ false → (beq text a && beq text b) ≡ false
exclusive text a b h = ground (arith, beq_iff text a, beq_iff text b, beq_iff a b)

module _ (text : Bytes) where
  pub del-nak : (beq text (codes "DEL") && beq text (codes "NAK")) ≡ false
  unfolding beq
  del-nak = exclusive text (codes "DEL") (codes "NAK") refl

  pub del-ls : (beq text (codes "DEL") && beq text (codes "LS")) ≡ false
  unfolding beq
  del-ls = exclusive text (codes "DEL") (codes "LS") refl

  pub del-new : (beq text (codes "DEL") && beq text (codes "NEW")) ≡ false
  unfolding beq
  del-new = exclusive text (codes "DEL") (codes "NEW") refl

  pub del-ack : (beq text (codes "DEL") && beq text (codes "ACK")) ≡ false
  unfolding beq
  del-ack = exclusive text (codes "DEL") (codes "ACK") refl

  pub nak-ack : (beq text (codes "NAK") && beq text (codes "ACK")) ≡ false
  unfolding beq
  nak-ack = exclusive text (codes "NAK") (codes "ACK") refl

  pub nak-ls : (beq text (codes "NAK") && beq text (codes "LS")) ≡ false
  unfolding beq
  nak-ls = exclusive text (codes "NAK") (codes "LS") refl

  pub nak-new : (beq text (codes "NAK") && beq text (codes "NEW")) ≡ false
  unfolding beq
  nak-new = exclusive text (codes "NAK") (codes "NEW") refl

  pub ls-ack : (beq text (codes "LS") && beq text (codes "ACK")) ≡ false
  unfolding beq
  ls-ack = exclusive text (codes "LS") (codes "ACK") refl

  pub new-ack : (beq text (codes "NEW") && beq text (codes "ACK")) ≡ false
  unfolding beq
  new-ack = exclusive text (codes "NEW") (codes "ACK") refl
