-- ===== src/Perms/Ascii.antt =====
-- The nickname that `parseUserPrefix` cuts out of an ASCII text is ASCII.
use girc.Prelude.{◌≡◌, arith, some, [], ◌∷◌, ◌++◌, Bytes, IsAscii}
use girc.Perms.{parse_user_prefix, prefix_from}

prefix_from-IsAscii :
    (raw met modes nick : Bytes)
    → IsAscii raw
    → prefix_from met raw ≡ some (modes, nick)
    → IsAscii nick
unfolding prefix_from
prefix_from-IsAscii [] met modes nick a e = cc
prefix_from-IsAscii (c ∷ raw) met modes nick a e =
    ground (arith, prefix_from-IsAscii raw (met ++ (c ∷ [])) modes nick a.1)

pub parse_user_prefix-IsAscii :
    (raw modes nick : Bytes)
    → IsAscii raw
    → parse_user_prefix raw ≡ some (modes, nick)
    → IsAscii nick
unfolding parse_user_prefix
parse_user_prefix-IsAscii raw modes nick = prefix_from-IsAscii raw [] modes nick
