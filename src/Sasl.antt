-- ===== src/Sasl.antt =====
-- cap_sasl.go: the mechanisms and the exchange of AUTHENTICATE messages.
pub mod Chunks
use girc.Prelude.{
  ℕ, zero, suc, ◌-◌, ◌==◌, ltb, Bool, true, false, not, ◌||◌, Option, none, some, List, [], ◌∷◌,
  ◌++◌, if◌then◌else◌, Bytes, codes, beq, is_empty, length, get_or, Outcome, ok, panic, ◌>>=◌,
  slice, slice_from,
}
use girc.Event.{Event, plain_event, last}
use girc.Actions.{Action, write, receive}

-- SASLMech
pub record SaslMech : Type 0 where
  pub method : Bytes
  pub encode : List Bytes → Bytes

-- SASLExternal.Encode
unfoldable pub external_encode : Bytes → List Bytes → Bytes
external_encode identity params =
    if not (length params == 1) || not (beq (get_or params 0 []) (codes "+"))
    then []
    else if not (is_empty identity)
    then identity
    else codes "+"

-- SASLExternal
unfoldable pub sasl_external : Bytes → SaslMech
unfolding external_encode
sasl_external identity = record { method = codes "EXTERNAL"; encode = external_encode identity }

-- SASLPlain.Encode, with base64.StdEncoding.EncodeToString
unfoldable pub plain_encode : (Bytes → Bytes) → Bytes → Bytes → List Bytes → Bytes
plain_encode base64 user pass params =
    if not (length params == 1) || not (beq (get_or params 0 []) (codes "+"))
    then []
    else base64 (user ++ (0x0 ∷ (user ++ (0x0 ∷ pass))))

-- SASLPlain
unfoldable pub sasl_plain : (Bytes → Bytes) → Bytes → Bytes → SaslMech
unfolding plain_encode
sasl_plain base64 user pass = record {
  method = codes "PLAIN";
  encode = plain_encode base64 user pass;
}

abbrev pub sasl_chunk_size : ℕ
sasl_chunk_size = 400

unfoldable pub authenticate : Bytes → Action
authenticate text =
    write (record (plain_event (codes "AUTHENTICATE") (text ∷ [])) { sensitive = true })

unfoldable pub empty_chunk : Action
empty_chunk = write (plain_event (codes "AUTHENTICATE") (codes "+" ∷ []))

unfoldable pub cap_end : Action
cap_end = write (plain_event (codes "CAP") (codes "END" ∷ []))

-- A round of the loop of handleSASL: `long` says whether the response is longer than a chunk, and
-- `again` are the rounds that follow.
unfoldable pub chunk_round : Bytes → (Bytes → Outcome (List Action)) → Bool → Outcome (List Action)
unfolding authenticate empty_chunk
chunk_round auth again true = do
  first ← slice auth 0 (sasl_chunk_size - 1)
  rest ← slice_from auth sasl_chunk_size
  more ← again rest
  ok (authenticate first ∷ more)
chunk_round auth again false =
    ok (authenticate auth ∷ (if length auth == 400 then empty_chunk ∷ [] else []))

-- The loop, on fuel. A run out of fuel is a panic.
unfoldable pub chunks : ℕ → Bytes → Outcome (List Action)
unfolding chunk_round
chunks zero auth = panic
chunks (suc fuel) auth =
    chunk_round auth (λ rest. chunks fuel rest) (ltb sasl_chunk_size (length auth))

closing : Bytes → Action
closing text = receive (plain_event (codes "ERROR") (text ∷ []))

authenticate_with : Event → Option SaslMech → Outcome (List Action)
unfolding chunks closing
authenticate_with e none = panic
authenticate_with e (some mech) =
    let auth = mech.encode e.params in
    if is_empty auth
    then ok (
        closing (codes "closing connection: SASL " ++ mech.method ++ codes " failed: " ++ last e)
        ∷ [])
    else chunks (length auth) auth

-- handleSASL; `none` is a Config.SASL that is nil.
unfoldable pub handle_sasl : Option SaslMech → Event → Outcome (List Action)
unfolding authenticate_with cap_end
handle_sasl mech e =
    if beq e.command (codes "903") || beq e.command (codes "907")
    then ok (cap_end ∷ [])
    else authenticate_with e mech

-- handleSASLError
unfoldable pub handle_sasl_error : Option SaslMech → Event → List Action
unfolding closing cap_end
handle_sasl_error none e = cap_end ∷ []
handle_sasl_error (some mech) e = closing (codes "closing connection: " ++ last e) ∷ []
