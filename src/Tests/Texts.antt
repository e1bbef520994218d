-- ===== src/Tests/Texts.antt =====
-- Names, sources and tags at concrete inputs.
use girc.Prelude.{◌≡◌, refl, arith, true, false, [], codes, beq, has_prefix, insert}
use girc.Source.{Source, parse_source, string}
use girc.Source.RoundTrip.{IsPlain, parse_source-string}
use girc.Tags.{encode, decode, set, stored, tag_bytes, valid_tag, valid_tag_value, tags_len}
use girc.Text.Glob.{split_star, glob}
use girc.Text.Glob.Complete.{Fits, glob_complete}
use girc.Text.Fold.{to_rfc1459}
use girc.Text.Valid.{is_valid_nick, is_valid_user, is_valid_channel}

abbrev bob : Source
bob = record { name = codes "bob"; ident = codes "~b"; host = codes "example.org" }

bob-IsPlain : IsPlain bob
bob-IsPlain = record {
  name_ne_nil = λ h. cc;
  name_lacks_ident = omega arith;
  name_lacks_host = omega arith;
  ident_lacks_host = omega arith;
  host_lacks_ident = λ h. cc;
}

parse_source-string_example : parse_source (string bob) ≡ bob
parse_source-string_example = parse_source-string bob bob-IsPlain

string-bob : string bob ≡ codes "bob!~b@example.org"
unfolding string
string-bob = refl

fold_nick : to_rfc1459 (codes "Nick[a]^") ≡ codes "nick{a}~"
unfolding to_rfc1459
fold_nick = refl

valid_names :
    (is_valid_nick (codes "Bob[1]") ≡ true)
    × (is_valid_nick (codes "1Bob") ≡ false)
    × (is_valid_user (codes "~bob.x") ≡ true)
    × (is_valid_channel (codes "#go") ≡ true)
    × (is_valid_channel (codes "!ABC12x") ≡ true)
    × (is_valid_channel (codes "#g,o") ≡ false)
unfolding is_valid_nick is_valid_user is_valid_channel
valid_names = (refl, refl, refl, refl, refl, refl)

set_msg : set [] (codes "msg") (codes "a b") ≡ stored (insert (codes "msg") (codes "a\\sb") [])
unfolding set encode valid_tag valid_tag_value tags_len tag_bytes
set_msg = refl

-- The value of the tag is a backslash and an "s"; `Get` gives a space.
decoded_twice : decode (decode (codes "\\\\s")) ≡ codes " "
unfolding decode
decoded_twice = refl

bob-Fits : Fits (split_star [] (codes "*!b*@host")) (codes "bob!bo@host")
unfolding Fits split_star
bob-Fits = (codes "bob", codes "!bo@host", refl, (codes "o", codes "@host", refl, refl))

glob_complete_example : glob (codes "bob!bo@host") (codes "*!b*@host") ≡ true
glob_complete_example = glob_complete (codes "bob!bo@host") (codes "*!b*@host") bob-Fits

-- The prefix and the suffix of the pattern may overlap in the text.
glob_overlap : (glob (codes "a") (codes "a*a") ≡ true) × (glob (codes "bob") (codes "a*") ≡ false)
unfolding glob has_prefix beq
glob_overlap = (refl, refl)
