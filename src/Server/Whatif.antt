-- ===== src/Server/Whatif.antt =====
-- src/server.c: `handle_whatif`, which quotes Professor Farnsworth in a JSON document.
use professor_ai.Prelude.{
  ℕ, zero, suc, ◌+◌, ◌*◌, ◌/◌, ◌%◌, ◌≤◌, ◌<◌, ◌≡◌, refl, inl, inr, Bool, true, false, ◌||◌, Option,
  none, some, List, [], ◌∷◌, ◌++◌, if◌then◌else◌, ◌==◌, ltb, length, get_elem?, get_or, take, drop,
  arith, Bool-cases, length-append,
}
use professor_ai.Prelude.Bytes.{Bytes, codes, snprintf_s, take_all}

-- `farnsworth_quotes`
abbrev pub quotes : List Bytes
quotes =
    codes "Good news, everyone! I've taught the toaster to feel love."
    ∷ codes "I don't want to live on this planet anymore."
    ∷ codes "Sweet zombie Jesus!"
    ∷ codes "There's no scientific consensus that life is important."
    ∷ codes "To shreds, you say?"
    ∷ codes "I suppose I could part with one and still be feared."
    ∷ codes "If a dog craps anywhere in the universe, you can bet I won't be out of the loop."
    ∷ codes "Quiet, you!"
    ∷ codes "Now I've often said 'good news' when sending you on a mission of extreme danger."
    ∷ codes "Good news, everyone! I'm still technically alive!"
    ∷ codes "Bad news, nobody."
    ∷ codes "My God, they're back! We're doomed!"
    ∷ codes "Wernstrom!"
    ∷ codes
        "So that's what things would be like if I'd invented the Fing-Longer. A man can dream though. A man can dream..."
    ∷ codes
        "Good news, everyone! Several years ago I tried to log on to AOL, and it just went through! We're online!"
    ∷ codes "Our crew is replaceable, your package isn't."
    ∷ codes "Fuff!"
    ∷ codes "Eh wha?"
    ∷ codes "Oh my, yes."
    ∷ codes
        "Planet Express is on the move. For this hip, young delivery company, tomorrow is today and today is yesterday."
    ∷ []

-- `(ts.tv_nsec / 1000) % FARNSWORTH_QUOTE_COUNT`
unfoldable pub quote_index : ℕ → ℕ
quote_index nsec = (nsec / 1000) % length quotes

-- `"` or `\`
unfoldable pub is_special : ℕ → Bool
is_special c = c == 34 || c == 92

-- The loop that escapes a quote into `escaped`, from position `pos`.
unfoldable pub escape : ℕ → Bytes → Bytes
unfolding is_special
escape pos [] = []
escape pos (c ∷ s) =
    let rest = escape (pos + (if is_special c then 2 else 1)) s in
    if ltb pos 1022 then (if is_special c then 92 ∷ c ∷ rest else c ∷ rest) else []

abbrev document : Bytes → Bytes
document escaped =
    codes "{\"what_if\":\"" ++ (escaped ++ (34 ∷ codes ",\"source\":\"Professor Farnsworth\"}"))

-- The body of the reply.
unfoldable pub whatif_body : ℕ → Bytes
whatif_body nsec = snprintf_s 1280 (document (escape 0 (get_or quotes (quote_index nsec) [])))

-- How a JSON reader takes a string behind its opening quote: its text, and what follows the closing
-- quote.
unfoldable pub read_string : Bytes → Option (Bytes × Bytes)
read_string [] = none
read_string (c ∷ []) = if c == 34 then some ([], []) else none
read_string (c ∷ d ∷ s) =
    if c == 34
    then some ([], d ∷ s)
    else if c == 92
    then elim (read_string s) [ none ↦ none | some (text, rest) ↦ some (d ∷ text, rest) ]
    else elim (read_string (d ∷ s)) [ none ↦ none | some (text, rest) ↦ some (c ∷ text, rest) ]

read_string_plain :
    (c : ℕ) (t text rest : Bytes)
    → is_special c ≡ false
    → read_string t ≡ some (text, rest)
    → read_string (c ∷ t) ≡ some (c ∷ text, rest)
unfolding read_string is_special
read_string_plain c [] text rest plain h = cc
read_string_plain c (d ∷ t) text rest plain h = rw (h, read_string) (ground arith)

read_string_special :
    (c : ℕ) (t text rest : Bytes)
    → read_string t ≡ some (text, rest)
    → read_string (92 ∷ c ∷ t) ≡ some (c ∷ text, rest)
unfolding read_string
read_string_special c t text rest h = rw (h, read_string) refl

-- What is escaped is read back, whatever follows the closing quote, if the buffer has room.
read_string-escape :
    (pos : ℕ) (s rest : Bytes)
    → pos + 2 * length s ≤ 1023
    → read_string (escape pos s ++ (34 ∷ rest)) ≡ some (s, rest)
unfolding escape read_string
read_string-escape pos [] [] h = refl
read_string-escape pos [] (d ∷ rest) h = refl
read_string-escape pos (c ∷ s) rest h =
    let room : ltb pos 1022 ≡ true = ground arith in
    elim (Bool-cases (is_special c)) [
      | inl special ↦
          let ih = read_string-escape (pos + 2) s rest (omega arith) in
          rw (room, special) (read_string_special c (escape (pos + 2) s ++ (34 ∷ rest)) s rest ih)
      | inr plain ↦
          let ih = read_string-escape (pos + 1) s rest (omega arith) in
          rw (room, plain) (read_string_plain c (escape (pos + 1) s ++ (34 ∷ rest)) s rest plain ih)
    ]

-- The buffer of 1024 bytes holds what is escaped, and its NUL, for every text.
length-escape : (pos : ℕ) (s : Bytes) → pos ≤ 1023 → pos + length (escape pos s) ≤ 1023
unfolding escape
length-escape pos [] h = omega arith
length-escape pos (c ∷ s) h = elim (Bool-cases (is_special c)) [
  | inl special ↦ rw special (ground (arith, length-escape (pos + 2) s))
  | inr plain ↦ rw plain (ground (arith, length-escape (pos + 1) s))
]

abbrev AllShort : List Bytes → Type 0
AllShort [] = Unit {0}
AllShort (s ∷ ss) = (length s ≤ 500) × AllShort ss

get_elem?_short :
    (ss : List Bytes) (i : ℕ)
    → AllShort ss
    → i < length ss
    → get_elem? ss i ≡ some (get_or ss i []) × (length (get_or ss i []) ≤ 500)
get_elem?_short [] i h k = absurd (omega arith)
get_elem?_short (s ∷ ss) zero h k = (refl, h.0)
get_elem?_short (s ∷ ss) (suc i) h k = get_elem?_short ss i h.1 (omega arith)

quotes_short : AllShort quotes
quotes_short = omega arith

whatif_body-whole :
    (nsec : ℕ)
    → length (get_or quotes (quote_index nsec) []) ≤ 500
    → whatif_body nsec ≡ document (escape 0 (get_or quotes (quote_index nsec) []))
unfolding whatif_body
whatif_body-whole nsec h =
    let escaped = escape 0 (get_or quotes (quote_index nsec) []) in
    take_all 1279 (document escaped) (
      omega (
        arith,
        length-escape 0 (get_or quotes (quote_index nsec) []),
        length-append escaped (34 ∷ codes ",\"source\":\"Professor Farnsworth\"}"),
      ))

-- What a client reads behind `{"what_if":"` is one of the quotes, for every value of the clock, and
-- behind its closing quote stands the rest of the document: no character breaks the JSON string, and
-- neither buffer cuts it.
pub whatif_body_reads :
    (nsec : ℕ)
    → (quote : Bytes) × (get_elem? quotes (quote_index nsec) ≡ some quote)
      × (take 12 (whatif_body nsec) ≡ codes "{\"what_if\":\"")
      × (read_string (drop 12 (whatif_body nsec))
          ≡ some (quote, codes ",\"source\":\"Professor Farnsworth\"}"))
unfolding quote_index
whatif_body_reads nsec =
    let quote = get_or quotes (quote_index nsec) [] in
    let found = get_elem?_short quotes (quote_index nsec) quotes_short (omega arith) in
    let whole = whatif_body-whole nsec found.1 in
    (
      quote,
      found.0,
      rw whole refl,
      rw whole (
          read_string-escape 0 quote (codes ",\"source\":\"Professor Farnsworth\"}")
            (omega (arith, found.1))),
    )
