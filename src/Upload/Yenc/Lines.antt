-- ===== src/Upload/Yenc/Lines.antt =====
-- services/upload_usenet.go: the lines that yEncodeChunk writes.
use loon_agent.Prelude.{
  ℕ, suc, ◌+◌, ◌%◌, ◌<◌, ◌≡◌, refl, ap, ◌∙◌, inl, inr, Bool, true, false, ◌&&◌, ◌||◌, not, [], ◌∷◌,
  ◌++◌, ltb, leb, ◌==◌, if◌then◌else◌, arith, Bytes, Bool-cases,
}
use loon_agent.Upload.Yenc.{crlf, yenc_value, is_critical, emit, advance, yenc_body}

-- Lines of 1 to 129 bytes, each ended by CR LF, without NUL, bare CR or LF, and none that starts
-- with a dot. The flag says that CR has just been read, the number how much of the line.
unfoldable pub is_article_body : Bool → ℕ → Bytes → Bool
is_article_body true line_len [] = false
is_article_body false line_len [] = line_len == 0
is_article_body true line_len (c ∷ s) = (c == 10) && is_article_body false 0 s
is_article_body false line_len (c ∷ s) =
    let ended = is_article_body true line_len s in
    let next = is_article_body false (suc line_len) s in
    if c == 13
    then ltb 0 line_len && ended
    else not ((c == 0) || (c == 10) || ((line_len == 0) && (c == 46))) && (ltb line_len 129 && next)

body-char :
    (line_len c : ℕ) (s : Bytes)
    → ((c == 0) || (c == 10) || (c == 13) || ((line_len == 0) && (c == 46))) ≡ false
    → line_len < 129
    → is_article_body false line_len (c ∷ s) ≡ is_article_body false (suc line_len) s
unfolding is_article_body
body-char line_len c s h l = ground arith

body-break :
    (line_len : ℕ) (s : Bytes)
    → 0 < line_len
    → is_article_body false line_len (13 ∷ 10 ∷ s) ≡ is_article_body false 0 s
unfolding is_article_body
body-break line_len s h = ground arith

escaped_char :
    (line_len v : ℕ)
    → is_critical line_len v ≡ true
    → (let c = (v + 64) % 256 in
        ((c == 0) || (c == 10) || (c == 13) || ((suc line_len == 0) && (c == 46))) ≡ false)
escaped_char line_len v h = ground arith

plain_char :
    (line_len v : ℕ)
    → is_critical line_len v ≡ false
    → ((v == 0) || (v == 10) || (v == 13) || ((line_len == 0) && (v == 46))) ≡ false
plain_char line_len v h = ground arith

equals_sign :
    (line_len : ℕ)
    → ((61 == 0) || (61 == 10) || (61 == 13) || ((line_len == 0) && (61 == 46))) ≡ false
equals_sign line_len = ground arith

body_end : is_article_body false 0 [] ≡ true
unfolding is_article_body
body_end = refl

body-emit :
    (line_len v : ℕ) (s : Bytes)
    → line_len < 128
    → is_article_body false line_len (emit (is_critical line_len v) v ++ s)
      ≡ is_article_body false (advance (is_critical line_len v) line_len) s
body-emit line_len v s l = elim (Bool-cases (is_critical line_len v)) [
  | inl escaped ↦ rw escaped (
      body-char line_len 61 ((v + 64) % 256 ∷ s) (equals_sign line_len) (omega arith)
      ∙ (body-char (suc line_len) ((v + 64) % 256) s (escaped_char line_len v escaped) (omega arith)
          ∙ ap (λ n. is_article_body false n s) (omega arith)))
  | inr plain ↦ rw plain (
      body-char line_len v s (plain_char line_len v plain) (omega arith)
      ∙ ap (λ n. is_article_body false n s) (omega arith))
]

body-wrap :
    (len : ℕ) (s : Bytes)
    → 0 < len
    → is_article_body false len ((if leb 128 len then crlf else []) ++ s)
      ≡ is_article_body false (if leb 128 len then 0 else len) s
body-wrap len s h = elim (Bool-cases (leb 128 len)) [
  | inl full ↦ rw full (body-break len s h)
  | inr room ↦ rw room refl
]

advance_pos : (e : Bool) (line_len : ℕ) → 0 < advance e line_len
advance_pos true line_len = omega arith
advance_pos false line_len = omega arith

wrapped_lt : (len : ℕ) → (if leb 128 len then 0 else len) < 128
wrapped_lt len = ground arith

-- From a line that holds fewer than 128 bytes, yEncodeChunk goes on to write lines of 1 to 129
-- bytes, each ended by CR LF, without NUL, bare CR or bare LF; no line starts with a dot, and the
-- last line is ended.
pub yenc_body-is_article_body :
    (line_len : ℕ) (bytes : Bytes)
    → line_len < 128
    → is_article_body false line_len (yenc_body line_len bytes) ≡ true
unfolding yenc_body
yenc_body-is_article_body line_len [] l = elim (Bool-cases (ltb 0 line_len)) [
  | inl some_ ↦ rw some_ (body-break line_len [] (ground arith) ∙ body_end)
  | inr none_ ↦ rw none_ (unfold is_article_body in ground arith)
]
yenc_body-is_article_body line_len (b ∷ bytes) l =
    let val = yenc_value b in
    let escaped = is_critical line_len val in
    let len = advance escaped line_len in
    let next = if leb 128 len then 0 else len in
    body-emit line_len val ((if leb 128 len then crlf else []) ++ yenc_body next bytes) l
    ∙ (body-wrap len (yenc_body next bytes) (advance_pos escaped line_len)
        ∙ yenc_body-is_article_body next bytes (wrapped_lt len))
