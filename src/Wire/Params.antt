-- ===== src/Wire/Params.antt =====
-- Reading back the command and the parameters of a printed line.
use girc.Prelude.{
  ℕ, ◌+◌, ◌-◌, ◌≡◌, ◌<◌, refl, sym, ap, ◌∙◌, arith, true, false, Option, none, some, List, [], ◌∷◌,
  ◌++◌, append_assoc, append-nil, ltb, Bytes, length, length-append, all, last_or, index_byte,
  index_byte-append, index_byte-Lacks, ok, ◌>>=◌, slice, slice_from, slice_from-append,
  slice-append,
}
use mathlib.Core.Path.{subst}
use girc.Wire.{
  Platform, is_ascii, fields_from, to_upper, fields, params_at, command_at, find_trailer,
}
use girc.Wire.Print.{params_bytes}
use girc.Wire.Print.Length.{is_plain_byte}
use girc.Wire.Scan.{scan, find_trailer-scan, last_or-append}
use girc.Wire.Plain.{
  ascii-word, is_command_byte, ascii-command, all-append, word-Lacks, upper-command, plain-is_ascii,
  plain-middles,
}
use girc.Wire.Words.{
  is_word_byte, is_middle, are_params, middles, Shape, plain, trailing, params-Shape,
  fields_from-middles, fields_from-word, scan-line-none, scan-line-some,
}

-- The middle parameters are the fields of their text.
fields-middles :
    (p : Platform) (m : Bytes) (ms : List Bytes)
    → all is_middle (m ∷ ms) ≡ true
    → fields p (m ++ middles ms) ≡ m ∷ ms
unfolding fields is_middle
fields-middles p [] ms h = absurd (ground arith)
fields-middles p (c ∷ m) ms h =
    let word : all is_word_byte (c ∷ m) ≡ true = ground arith in
    let others : all is_middle ms ≡ true = ground arith in
    let text : all is_plain_byte ((c ∷ m) ++ middles ms) ≡ true =
      all-append is_plain_byte (c ∷ m) (middles ms) (ascii-word (c ∷ m) word)
        (plain-middles ms others) in
    let ascii : is_ascii ((c ∷ m) ++ middles ms) ≡ true =
      plain-is_ascii ((c ∷ m) ++ middles ms) text in
    rw ascii (fields_from-word (c ∷ m) [] (middles ms) word ∙ fields_from-middles c m ms others)

-- The text behind a colon.
colon_behind : (u t : Bytes) (at : ℕ) → at ≡ length u + 1 → slice_from (u ++ (b':' ∷ t)) at ≡ ok t
colon_behind u t at place =
    ap (λ r. slice_from r at) (sym (append_assoc u (b':' ∷ []) t))
    ∙ slice_from-append (u ++ (b':' ∷ [])) t at (omega (arith, length-append u (b':' ∷ [])))

colon_assoc :
    (u w t : Bytes) → u ++ (w ++ (b' ' ∷ b':' ∷ t)) ≡ (u ++ (w ++ (b' ' ∷ []))) ++ (b':' ∷ t)
colon_assoc u w t = simp append_assoc

scan-first : (t : Bytes) → scan b' ' (b':' ∷ t) 0 ≡ some 0
unfolding scan
scan-first t = refl

upper_ascii :
    (p : Platform) (command : Bytes)
    → all is_command_byte command ≡ true
    → to_upper p command ≡ command
unfolding to_upper
upper_ascii p command h =
    rw (plain-is_ascii command (ascii-word command (ascii-command command h)))
      (upper-command command h)

module _ (p : Platform) where
  -- The loop and the cut that it decides give these parameters.
  Reads : Bytes → ℕ → List Bytes → Type 0
  Reads raw j params =
      (trailer : Option ℕ) × (find_trailer (length raw + 1) raw j 0 ≡ ok trailer)
      × (params_at p raw j trailer ≡ ok params)

  found_Reads :
      (x : ℕ) (front body : Bytes) (trailer : Option ℕ) (params : List Bytes)
      → last_or front x ≡ b' '
      → scan b' ' body 0 ≡ trailer
      → params_at p ((x ∷ front) ++ body) (length (x ∷ front)) trailer ≡ ok params
      → Reads ((x ∷ front) ++ body) (length (x ∷ front)) params
  unfolding Reads
  found_Reads x front body trailer params space found cut = (
    trailer,
    find_trailer-scan _ x front body _ 0 (omega arith)
          (omega (arith, length-append (x ∷ front) body))
        ∙ ap ok (ap (λ c. scan c body 0) space ∙ found),
    cut,
  )

  params_at-none : (u body : Bytes) → params_at p (u ++ body) (length u) none ≡ ok (fields p body)
  unfolding params_at
  params_at-none u body =
      ap (λ o. o >>= λ rest. ok (fields p rest)) (slice_from-append u body (length u) refl)

  params_at-first : (u t : Bytes) → params_at p (u ++ (b':' ∷ t)) (length u) (some 0) ≡ ok (t ∷ [])
  unfolding params_at fields is_ascii fields_from
  params_at-first u t =
      let here : ltb (length u) (length u + 0) ≡ false = ground arith in
      let last : slice_from (u ++ (b':' ∷ t)) (length u + 0 + 1) ≡ ok t =
        colon_behind u t (length u + 0 + 1) (omega arith) in
      rw (here, last) refl

  params_at-some :
      (u w t : Bytes)
      → params_at p (u ++ (w ++ (b' ' ∷ b':' ∷ t))) (length u) (some (length w + 1))
        ≡ ok (fields p w ++ (t ∷ []))
  unfolding params_at
  params_at-some u w t =
      let later : ltb (length u) (length u + (length w + 1)) ≡ true = ground arith in
      let front : slice (u ++ (w ++ (b' ' ∷ b':' ∷ t))) (length u) (length u + (length w + 1) - 1)
          ≡ ok w =
        slice-append u w (b' ' ∷ b':' ∷ t) _ _ refl (omega arith) in
      let place : length u + (length w + 1) + 1 ≡ length (u ++ (w ++ (b' ' ∷ []))) + 1 =
        omega (arith, length-append u (w ++ (b' ' ∷ [])), length-append w (b' ' ∷ [])) in
      let last : slice_from (u ++ (w ++ (b' ' ∷ b':' ∷ t))) (length u + (length w + 1) + 1) ≡ ok t =
        ap (λ r. slice_from r (length u + (length w + 1) + 1)) (colon_assoc u w t)
        ∙ colon_behind (u ++ (w ++ (b' ' ∷ []))) t _ place in
      rw (later, front, last) refl

  Shape-Reads :
      (x : ℕ) (front : Bytes) (param : Bytes) (params : List Bytes)
      → last_or front x ≡ b' '
      → Shape (param ∷ params)
      → (body : Bytes) × (params_bytes (param ∷ params) ≡ b' ' ∷ body)
        × Reads ((x ∷ front) ++ body) (length (x ∷ front)) (param ∷ params)
  unfolding middles
  Shape-Reads x front param params space (plain words print) = (
    param ++ middles params,
    print,
    found_Reads x front (param ++ middles params) none _ space (scan-line-none param params words) (
        params_at-none (x ∷ front) (param ++ middles params)
        ∙ ap ok (fields-middles p param params words)),
  )
  Shape-Reads x front param params space (trailing [] t words text same print) = (
    b':' ∷ t,
    print,
    found_Reads x front (b':' ∷ t) (some 0) _ space (scan-first t)
        (params_at-first (x ∷ front) t ∙ ap ok (sym same)),
  )
  Shape-Reads x front param params space (trailing (m ∷ ms) t words text same print) = (
    (m ++ middles ms) ++ (b' ' ∷ b':' ∷ t),
    print,
    found_Reads x front ((m ++ middles ms) ++ (b' ' ∷ b':' ∷ t))
        (some (length (m ++ middles ms) + 1)) _ space (scan-line-some m ms t words)
        (params_at-some (x ∷ front) (m ++ middles ms) t
          ∙ ap ok (ap (λ r. r ++ (t ∷ [])) (fields-middles p m ms words) ∙ sym same)),
  )

  -- The parameters behind the text `w`.
  params_bytes-Reads :
      (w : Bytes) (param : Bytes) (params : List Bytes)
      → 0 < length w
      → are_params (param ∷ params) ≡ true
      → Reads (w ++ params_bytes (param ∷ params)) (length w + 1) (param ∷ params)
        × (body : Bytes) × (params_bytes (param ∷ params) ≡ b' ' ∷ body)
  params_bytes-Reads [] param params long h = absurd (omega arith)
  params_bytes-Reads (x ∷ w) param params long h =
      let space : last_or (w ++ (b' ' ∷ [])) x ≡ b' ' = last_or-append w (b' ' ∷ []) x in
      let (body, print, reads) =
        Shape-Reads x (w ++ (b' ' ∷ [])) param params space (params-Shape (param ∷ params) h) in
      let whole : (x ∷ (w ++ (b' ' ∷ []))) ++ body ≡ (x ∷ w) ++ params_bytes (param ∷ params) =
        append_assoc (x ∷ w) (b' ' ∷ []) body ∙ ap (λ r. (x ∷ w) ++ r) (sym print) in
      let place : length (x ∷ (w ++ (b' ' ∷ []))) ≡ length (x ∷ w) + 1 =
        omega (arith, length-append w (b' ' ∷ [])) in
      (
        subst (λ r. Reads r (length (x ∷ w) + 1) (param ∷ params)) whole
            (subst (λ n. Reads ((x ∷ (w ++ (b' ' ∷ []))) ++ body) n (param ∷ params)) place reads),
        body,
        print,
      )

  command_at-without_params :
      (pre command : Bytes)
      → all is_command_byte command ≡ true
      → command_at p
          (pre ++ (command ++ params_bytes []))
          (length pre)
          (index_byte (command ++ params_bytes []) b' ')
        ≡ ok (command, [])
  unfolding command_at params_bytes
  command_at-without_params pre command upper_case =
      let word : all is_word_byte command ≡ true = ascii-command command upper_case in
      let whole : command ++ [] ≡ command = append-nil command in
      let missing : index_byte command b' ' ≡ none =
        index_byte-Lacks b' ' command (word-Lacks command word) in
      let front = slice_from-append pre command (length pre) refl in
      rw (whole, missing, front, upper_ascii p command upper_case) refl

  command_at-some :
      (pre command rest : Bytes) (params : List Bytes)
      → all is_command_byte command ≡ true
      → Reads (pre ++ (command ++ rest)) (length pre + length command + 1) params
      → command_at p (pre ++ (command ++ rest)) (length pre) (some (length command))
        ≡ ok (command, params)
  unfolding command_at Reads
  command_at-some pre command rest params upper_case (trailer, found, cut) =
      let front : slice (pre ++ (command ++ rest)) (length pre) (length pre + length command)
          ≡ ok command =
        slice-append pre command rest _ _ refl refl in
      rw (front, found, cut, upper_ascii p command upper_case) refl

  -- The command and its parameters are read back.
  pub command_at-params_bytes :
      (pre command : Bytes) (params : List Bytes)
      → 1 < length command
      → all is_command_byte command ≡ true
      → are_params params ≡ true
      → command_at p
          (pre ++ (command ++ params_bytes params))
          (length pre)
          (index_byte (command ++ params_bytes params) b' ')
        ≡ ok (command, params)
  command_at-params_bytes pre command [] long upper_case h =
      command_at-without_params pre command upper_case
  command_at-params_bytes pre command (param ∷ params) long upper_case h =
      let word : all is_word_byte command ≡ true = ascii-command command upper_case in
      let rest : Bytes = params_bytes (param ∷ params) in
      let raw : Bytes = pre ++ (command ++ rest) in
      let (reads, body, print) =
        params_bytes-Reads (pre ++ command) param params (omega (arith, length-append pre command))
          h in
      let at : index_byte (command ++ rest) b' ' ≡ some (length command) =
        ap (λ r. index_byte (command ++ r) b' ') print
        ∙ index_byte-append b' ' command body (word-Lacks command word) in
      let place : length (pre ++ command) + 1 ≡ length pre + length command + 1 =
        ap (λ n. n + 1) (length-append pre command) in
      ap (command_at p raw (length pre)) at
      ∙ command_at-some pre command rest (param ∷ params) upper_case (
          subst (λ n. Reads raw n (param ∷ params)) place
            (subst (λ r. Reads r (length (pre ++ command) + 1) (param ∷ params))
              (append_assoc pre command rest) reads))
