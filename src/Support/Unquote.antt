-- ===== src/Support/Unquote.antt =====
-- support.go: `unescapeAndUnquote` and `splitKeyValue`, with the part of strconv that they call.
use joe_cli.Common.{
  Bool, Option, Text, [], false, if◌then◌else◌, leb, length, ltb, none, not, some, suc, true, zero,
  ℕ, ◌%◌, ◌&&◌, ◌*◌, ◌++◌, ◌+◌, ◌-◌, ◌/◌, ◌==◌, ◌||◌, ◌∷◌,
}

hex_digit : ℕ → Option ℕ
hex_digit c =
    if leb b'0' c && leb c b'9'
    then some (c - b'0')
    else if leb b'a' c && leb c b'f'
    then some (c - b'a' + 10)
    else if leb b'A' c && leb c b'F'
    then some (c - b'A' + 10)
    else none

-- `n` hexadecimal digits at the front of the text
hex_value : ℕ → ℕ → Text → Option (ℕ × Text)
hex_value zero v s = some (v, s)
hex_value (suc n) v [] = none
hex_value (suc n) v (c ∷ s) = elim (hex_digit c) [
  | none ↦ none
  | some d ↦ hex_value n (v * 16 + d) s
]

octal_digit : ℕ → Option ℕ
octal_digit c = if leb b'0' c && leb c b'7' then some (c - b'0') else none

octal_value : ℕ → ℕ → Text → Option (ℕ × Text)
octal_value zero v s = some (v, s)
octal_value (suc n) v [] = none
octal_value (suc n) v (c ∷ s) = elim (octal_digit c) [
  | none ↦ none
  | some d ↦ octal_value n (v * 8 + d) s
]

-- The bytes of a code point in UTF-8; `none` for a surrogate half and above U+10FFFF.
utf8 : ℕ → Option Text
utf8 v =
    if leb 55296 v && leb v 57343 || ltb 1114111 v
    then none
    else if ltb v 128
    then some (v ∷ [])
    else if ltb v 2048
    then some ((192 + v / 64) ∷ (128 + v % 64) ∷ [])
    else if ltb v 65536
    then some ((224 + v / 4096) ∷ (128 + v / 64 % 64) ∷ (128 + v % 64) ∷ [])
    else some
        ((240 + v / 262144) ∷ (128 + v / 4096 % 64) ∷ (128 + v / 64 % 64) ∷ (128 + v % 64) ∷ [])

as_byte : Option (ℕ × Text) → Option (Text × Text)
as_byte none = none
as_byte (some (v, s)) = if ltb 255 v then none else some (v ∷ [], s)

as_rune : Option (ℕ × Text) → Option (Text × Text)
as_rune none = none
as_rune (some (v, s)) = elim (utf8 v) [ none ↦ none | some bytes ↦ some (bytes, s) ]

-- what stands behind a backslash
escape : ℕ → ℕ → Text → Option (Text × Text)
escape quote c s =
    if c == b'a'
    then some (7 ∷ [], s)
    else if c == b'b'
    then some (8 ∷ [], s)
    else if c == b'f'
    then some (12 ∷ [], s)
    else if c == b'n'
    then some (10 ∷ [], s)
    else if c == b'r'
    then some (13 ∷ [], s)
    else if c == b't'
    then some (9 ∷ [], s)
    else if c == b'v'
    then some (11 ∷ [], s)
    else if c == b'x'
    then as_byte (hex_value 2 0 s)
    else if c == b'u'
    then as_rune (hex_value 4 0 s)
    else if c == b'U'
    then as_rune (hex_value 8 0 s)
    else if leb b'0' c && leb c b'7'
    then as_byte (octal_value 3 0 (c ∷ s))
    else if c == 92
    then some (92 ∷ [], s)
    else if (c == 39 || c == 34) && c == quote
    then some (c ∷ [], s)
    else none

-- strconv.UnquoteChar, at a text that does not begin with the quote
unquote_char : ℕ → Text → Option (Text × Text)
unquote_char quote [] = none
unquote_char quote (c ∷ []) = if c == 92 || c == 10 then none else some (c ∷ [], [])
unquote_char quote (c ∷ d ∷ s) =
    if c == 10 then none else if c == 92 then escape quote d s else some (c ∷ [], d ∷ s)

closes : ℕ → Text → Text → Option Text
closes quote out (c ∷ []) = if c == quote then some out else none
closes quote out _ = none

-- The body of a quoted text; its fuel is the length of the text, of which each round drops a byte.
quoted_body : ℕ → ℕ → Text → Text → Option Text
quoted_body zero quote out s = none
quoted_body (suc f) quote out [] = none
quoted_body (suc f) quote out (c ∷ s) =
    let next : Option Text = elim (unquote_char quote (c ∷ s)) [
      | none ↦ none
      | some (bytes, rest) ↦ quoted_body f quote (out ++ bytes) rest
    ] in
    if c == quote then closes quote out (c ∷ s) else next

-- a text in single quotes is one character, or empty
single_quoted : Text → Option Text
single_quoted [] = none
single_quoted (c ∷ s) =
    if c == 39
    then closes 39 [] (c ∷ s)
    else elim (unquote_char 39 (c ∷ s)) [ none ↦ none | some (bytes, rest) ↦ closes 39 bytes rest ]

-- a text in back quotes: no escapes, and carriage returns are dropped
raw_body : Text → Text → Option Text
raw_body out [] = none
raw_body out (c ∷ []) = if c == 96 then some out else none
raw_body out (c ∷ d ∷ s) =
    let next = raw_body (if c == 13 then out else out ++ c ∷ []) (d ∷ s) in
    if c == 96 then none else next

-- strconv.Unquote
unfoldable pub unquote : Text → Option Text
unfolding hex_digit hex_value octal_digit octal_value utf8 as_byte as_rune escape unquote_char
    closes quoted_body single_quoted raw_body
unquote [] = none
unquote (c ∷ s) =
    if c == 34
    then quoted_body (length s + 1) 34 [] s
    else if c == 39
    then single_quoted s
    else if c == 96
    then raw_body [] s
    else none

-- the loop of `unescapeAndUnquote`: `escaped` is the flag of the source
unfoldable pub unescape : Bool → Text → Text
unescape escaped [] = []
unescape true (r ∷ s) = r ∷ unescape false s
unescape false (r ∷ s) =
    let rest = unescape true s in
    let plain = r ∷ unescape false s in if r == 92 then rest else plain

unfoldable pub unescape_and_unquote : Text → Text
unfolding unescape unquote
unescape_and_unquote s = unescape false (elim (unquote s) [ none ↦ s | some t ↦ t ])

-- `splitKeyValue`: the key and the value as they are scanned, before they are unquoted. `quote` is
-- 0 outside quotes.
unfoldable pub scan_key : ℕ → Bool → Text → Text → Option (Text × Text)
scan_key quote escaped buf [] = none
scan_key quote true buf (r ∷ s) = scan_key quote false (buf ++ r ∷ []) s
scan_key quote false buf (r ∷ s) =
    let behind_escape = scan_key quote true buf s in
    let go_on = λ (q : ℕ). scan_key q false (buf ++ r ∷ []) s in
    if r == 92
    then behind_escape
    else if not (quote == 0)
    then go_on (if r == quote then 0 else quote)
    else if r == 39 || r == 34
    then go_on r
    else if r == b'='
    then some (buf, s)
    else go_on quote

unfoldable pub split_key_value : Text → Text × Text × Bool
unfolding scan_key unescape_and_unquote
split_key_value field = elim (scan_key 0 false [] field) [
  | none ↦ (field, [], false)
  | some (key, value) ↦ (unescape_and_unquote key, unescape_and_unquote value, true)
]
