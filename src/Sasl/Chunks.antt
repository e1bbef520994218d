-- ===== src/Sasl/Chunks.antt =====
-- What the server gets of the response of a SASL mechanism.
use girc.Prelude.{
  ℕ, zero, suc, ◌+◌, ◌-◌, ◌/◌, ◌≡◌, ◌≤◌, ◌<◌, ◌==◌, ltb, refl, arith, ap, ◌∙◌, true, false, List,
  [], ◌∷◌, ◌++◌, if◌then◌else◌, Bytes, length, take, drop, Outcome, ok, ◌>>=◌, slice-eq-ok,
  slice_from-eq-ok, length-append, length-drop, Bool-cases, inl, inr, All,
}
use girc.Actions.{Action, send, write, receive, run_handlers, close}
use girc.Sasl.{chunks, chunk_round, authenticate, empty_chunk, sasl_chunk_size}

abbrev pub joined : List Bytes → Bytes
joined [] = []
joined (param ∷ params) = param ++ joined params

-- The response that the server puts together: the AUTHENTICATE messages that carry a part of it.
unfoldable pub payload : List Action → Bytes
payload [] = []
payload (write e ∷ actions) = (if e.sensitive then joined e.params else []) ++ payload actions
payload (send e ∷ actions) = payload actions
payload (receive e ∷ actions) = payload actions
payload (run_handlers e ∷ actions) = payload actions
payload (close ∷ actions) = payload actions

-- A message of at most a chunk.
abbrev pub IsChunk : Action → Type 0
IsChunk (write e) = length (joined e.params) ≤ sasl_chunk_size
IsChunk _ = Unit

last_chunk : Bytes → List Action
last_chunk auth = authenticate auth ∷ (if length auth == 400 then empty_chunk ∷ [] else [])

rounds : ℕ → Bytes → Outcome (List Action)
rounds fuel = λ rest. chunks fuel rest

chunks-long :
    (fuel : ℕ) (auth : Bytes)
    → ltb sasl_chunk_size (length auth) ≡ true
    → chunks (suc fuel) auth
      ≡ (chunks fuel (drop 400 auth) >>= λ more. ok (authenticate (take 399 auth) ∷ more))
unfolding chunks rounds
chunks-long fuel auth h =
    let long : 400 < length auth = ground arith in
    ap (chunk_round auth (rounds fuel)) h
    ∙ rw (slice-eq-ok auth 0 399 (omega arith) (omega arith)) (
        ap
          (λ m. m >>= λ rest. chunks fuel rest >>= λ more. ok (authenticate (take 399 auth) ∷ more))
          (slice_from-eq-ok auth 400 (omega arith)))

chunks-short :
    (fuel : ℕ) (auth : Bytes)
    → ltb sasl_chunk_size (length auth) ≡ false
    → chunks (suc fuel) auth ≡ ok (last_chunk auth)
unfolding chunks rounds last_chunk
chunks-short fuel auth h = ap (chunk_round auth (rounds fuel)) h

length-take : (n : ℕ) (s : Bytes) → n ≤ length s → length (take n s) ≡ n
length-take zero s h = refl
length-take (suc n) [] h = absurd (omega arith)
length-take (suc n) (c ∷ cs) h = omega (arith, length-take n cs (omega arith))

payload-authenticate :
    (text : Bytes) (actions : List Action)
    → length (payload (authenticate text ∷ actions)) ≡ length text + length (payload actions)
unfolding payload authenticate
payload-authenticate text actions =
    omega (arith, length-append (text ++ []) (payload actions), length-append text [])

last_chunk-payload : (auth : Bytes) → length (payload (last_chunk auth)) ≡ length auth
unfolding last_chunk payload authenticate empty_chunk
last_chunk-payload auth = elim (Bool-cases (length auth == 400)) [
  | inl h ↦ rw h (omega (arith, length-append (auth ++ []) [], length-append auth []))
  | inr h ↦ rw h (omega (arith, length-append (auth ++ []) [], length-append auth []))
]

IsChunk-authenticate : (text : Bytes) → length text ≤ 400 → IsChunk (authenticate text)
unfolding authenticate
IsChunk-authenticate text h = omega (arith, length-append text [])

last_chunk-IsChunk : (auth : Bytes) → length auth ≤ 400 → All IsChunk (last_chunk auth)
unfolding last_chunk authenticate empty_chunk
last_chunk-IsChunk auth h = elim (Bool-cases (length auth == 400)) [
  | inl e ↦ rw e (omega (arith, length-append auth []))
  | inr e ↦ rw e (omega (arith, length-append auth []))
]

-- The exchange ends; every message carries at most 400 bytes; and of each full chunk in front of
-- the last message the server misses one byte, so that it gets the whole response only if that has
-- at most 400 bytes.
pub chunks_lem :
    (fuel : ℕ) (auth : Bytes)
    → 0 < fuel
    → length auth ≤ fuel
    → (actions : List Action) × (chunks fuel auth ≡ ok actions)
      × All IsChunk actions
      × (length (payload actions) + (length auth - 1) / 400 ≡ length auth)
chunks_lem zero auth p q = absurd (omega arith)
chunks_lem (suc fuel) auth p q = elim (Bool-cases (ltb sasl_chunk_size (length auth))) [
  | inl h ↦
      let long : 400 < length auth = ground arith in
      let size = length-drop 400 auth in
      let (more, run, short, lost) = chunks_lem fuel (drop 400 auth) (omega arith) (omega arith) in
      (
        authenticate (take 399 auth) ∷ more,
        chunks-long fuel auth h
            ∙ ap (λ m. m >>= λ more. ok (authenticate (take 399 auth) ∷ more)) run,
        (
          IsChunk-authenticate (take 399 auth) (omega (arith, length-take 399 auth (omega arith))),
          short,
        ),
        omega
            (arith, payload-authenticate (take 399 auth) more, length-take 399 auth (omega arith)),
      )
  | inr h ↦
      let short : length auth ≤ 400 = ground arith in
      (
        last_chunk auth,
        chunks-short fuel auth h,
        last_chunk-IsChunk auth short,
        omega (arith, last_chunk-payload auth),
      )
]
