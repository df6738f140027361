-- ===== src/Config/Lines.antt =====
-- config/layered.go: the lines that WriteYml writes are read back one by one.
use loon_agent.Prelude.{
  ℕ, ◌≡◌, refl, ap, ◌∙◌, inl, inr, Bool, true, false, ◌&&◌, not, List, [], ◌∷◌, ◌++◌, any, all,
  all-append, ◌==◌, arith, Bytes, Bool-cases, length, length-append, leb, ◌+◌, ◌≤◌,
}
use loon_agent.Config.{
  lines_of, max_line, within_buffer, scan_lines, needs_quotes, rendered, line_of, quoted_bytes,
}
use loon_agent.Config.Quoting.{is_key_byte, is_key, is_value_byte, is_value, quoted_bytes_plain}

scan_step :
    (c : ℕ) (s line : Bytes) (lines : List Bytes)
    → (c == 10) ≡ false
    → lines_of s ≡ line ∷ lines
    → lines_of (c ∷ s) ≡ (c ∷ line) ∷ lines
unfolding lines_of
scan_step c s line lines h e = rw h (rw e refl)

lines_of-line :
    (line rest : Bytes)
    → all (λ c. not (c == 10)) line ≡ true
    → lines_of (line ++ (10 ∷ rest)) ≡ line ∷ lines_of rest
unfolding lines_of
lines_of-line [] rest h = refl
lines_of-line (c ∷ line) rest h =
    scan_step c (line ++ (10 ∷ rest)) line (lines_of rest) (ground arith)
      (lines_of-line line rest (ground arith))

-- A line of the file that the Scanner reads.
abbrev pub is_line : Bytes → Bool
is_line line = all (λ c. not (c == 10)) line && leb (length line) max_line

pub scan-line :
    (line rest : Bytes)
    → is_line line ≡ true
    → scan_lines (line ++ (10 ∷ rest)) ≡ line ∷ scan_lines rest
unfolding scan_lines within_buffer
scan-line line rest h =
    let short : leb (length line) max_line ≡ true = ground arith in
    rw (lines_of-line line rest (ground arith), short) refl

key_line : (k : Bytes) → all is_key_byte k ≡ true → all (λ c. not (c == 10)) k ≡ true
key_line [] h = refl
key_line (c ∷ k) h = ground (arith, key_line k)

value_line : (v : Bytes) → all is_value_byte v ≡ true → all (λ c. not (c == 10)) v ≡ true
value_line [] h = refl
value_line (c ∷ v) h = ground (arith, value_line v)

all_key_bytes : (k : Bytes) → is_key k ≡ true → all is_key_byte k ≡ true
all_key_bytes [] h = refl
all_key_bytes (c ∷ k) h = h

both : {a b : Bool} → a ≡ true → b ≡ true → (a && b) ≡ true
both h k = ground arith

quoted_line :
    (v : Bytes)
    → all is_value_byte v ≡ true
    → all (λ c. not (c == 10)) (quoted_bytes v ++ (34 ∷ [])) ≡ true
quoted_line v h =
    ap (λ t. all (λ c. not (c == 10)) (t ++ (34 ∷ []))) (quoted_bytes_plain v h)
    ∙ (all-append (λ c. not (c == 10)) v (34 ∷ []) ∙ both (value_line v h) refl)

rendered_line :
    (v : Bytes) → all is_value_byte v ≡ true → all (λ c. not (c == 10)) (rendered v) ≡ true
rendered_line v h = elim (Bool-cases (any needs_quotes v)) [
  | inl needs ↦ rw needs (quoted_line v h)
  | inr plain ↦ rw plain (value_line v h)
]

-- A key and a value that make up a line, with ": " and the quotes.
abbrev pub is_short : Bytes → Bytes → Bool
is_short k v = leb (length k + length v + 4) max_line

length-quoted :
    (v : Bytes) → all is_value_byte v ≡ true → length (quoted_bytes v ++ (34 ∷ [])) ≡ length v + 1
length-quoted v h =
    ap (λ t. length (t ++ (34 ∷ []))) (quoted_bytes_plain v h) ∙ length-append v (34 ∷ [])

length-rendered : (v : Bytes) → all is_value_byte v ≡ true → length (rendered v) ≤ length v + 2
length-rendered v h = elim (Bool-cases (any needs_quotes v)) [
  | inl needs ↦ rw needs (omega (arith, length-quoted v h))
  | inr plain ↦ rw plain (omega arith)
]

length-line_of :
    (k v : Bytes)
    → is_value v ≡ true
    → is_short k v ≡ true
    → leb (length (line_of k v)) max_line ≡ true
length-line_of k v h short =
    let long = length-append k (58 ∷ 32 ∷ rendered v) in
    let tail = length-rendered v (ground arith) in ground (arith, long, tail)

no_newline :
    (k v : Bytes)
    → is_key k ≡ true
    → is_value v ≡ true
    → all (λ c. not (c == 10)) (line_of k v) ≡ true
no_newline k v hk hv =
    all-append (λ c. not (c == 10)) k (58 ∷ 32 ∷ rendered v)
    ∙ both (key_line k (all_key_bytes k hk)) (rendered_line v (ground arith))

pub line_of-is_line :
    (k v : Bytes)
    → is_key k ≡ true
    → is_value v ≡ true
    → is_short k v ≡ true
    → is_line (line_of k v) ≡ true
line_of-is_line k v hk hv short = both (no_newline k v hk hv) (length-line_of k v hv short)
