-- ===== src/Upload/Yenc/Decode.antt =====
-- services/upload_usenet.go: what yEncodeChunk writes can be decoded and sent as an article.
use loon_agent.Prelude.{
  ℕ, ◌+◌, ◌%◌, ◌<◌, ◌≡◌, refl, ap, ◌∙◌, inl, inr, Bool, true, false, ◌||◌, [], ◌∷◌, ◌++◌, all, ltb,
  leb, ◌==◌, if◌then◌else◌, arith, Bytes, Bool-cases,
}
use loon_agent.Upload.Yenc.{crlf, yenc_value, is_critical, emit, advance, yenc_body}

abbrev pub is_byte : ℕ → Bool
is_byte b = ltb b 256

-- The decoder of the yEnc draft: line breaks are skipped, "=" escapes the next byte.
-- The flag says that "=" has just been read.
unfoldable pub yenc_decode : Bool → Bytes → Bytes
yenc_decode escaped [] = []
yenc_decode true (c ∷ s) = (c + 150) % 256 ∷ yenc_decode false s
yenc_decode false (c ∷ s) =
    let skipped = yenc_decode false s in
    let next = yenc_decode true s in
    if (c == 13) || (c == 10) then skipped else if c == 61 then next else (c + 214) % 256 ∷ skipped

is_byte-lt : (b : ℕ) → is_byte b ≡ true → b < 256
is_byte-lt b h = ground arith

decode-escaped :
    (v : ℕ) (s : Bytes) → yenc_decode false (61 ∷ v ∷ s) ≡ (v + 150) % 256 ∷ yenc_decode false s
unfolding yenc_decode
decode-escaped v s = refl

decode-plain :
    (v : ℕ) (s : Bytes)
    → ((v == 13) || (v == 10) || (v == 61)) ≡ false
    → yenc_decode false (v ∷ s) ≡ (v + 214) % 256 ∷ yenc_decode false s
unfolding yenc_decode
decode-plain v s h = ground arith

is_critical-plain :
    (line_len v : ℕ)
    → is_critical line_len v ≡ false
    → ((v == 13) || (v == 10) || (v == 61)) ≡ false
is_critical-plain line_len v h = ground arith

decode-emit :
    (line_len b : ℕ) (s : Bytes)
    → is_byte b ≡ true
    → yenc_decode false (emit (is_critical line_len (yenc_value b)) (yenc_value b) ++ s)
      ≡ b ∷ yenc_decode false s
decode-emit line_len b s h = elim (Bool-cases (is_critical line_len (yenc_value b))) [
  | inl escaped ↦ rw escaped (
      decode-escaped ((yenc_value b + 64) % 256) s
      ∙ ap (λ x. x ∷ yenc_decode false s) (omega (arith, is_byte-lt b h)))
  | inr plain ↦ rw plain (
      decode-plain (yenc_value b) s (is_critical-plain line_len (yenc_value b) plain)
      ∙ ap (λ x. x ∷ yenc_decode false s) (omega (arith, is_byte-lt b h)))
]

decode-break :
    (b : Bool) (s : Bytes) → yenc_decode false ((if b then crlf else []) ++ s) ≡ yenc_decode false s
unfolding yenc_decode
decode-break true s = refl
decode-break false s = refl

decode-last : (b : Bool) → yenc_decode false (if b then crlf else []) ≡ []
unfolding yenc_decode
decode-last true = refl
decode-last false = refl

-- A decoder gets back the bytes that yEncodeChunk encodes, from whatever column.
pub yenc_decode-yenc_body :
    (line_len : ℕ) (bytes : Bytes)
    → all is_byte bytes ≡ true
    → yenc_decode false (yenc_body line_len bytes) ≡ bytes
unfolding yenc_body
yenc_decode-yenc_body line_len [] h = decode-last (ltb 0 line_len)
yenc_decode-yenc_body line_len (b ∷ bytes) h =
    let len = advance (is_critical line_len (yenc_value b)) line_len in
    let next = if leb 128 len then 0 else len in
    decode-emit line_len b ((if leb 128 len then crlf else []) ++ yenc_body next bytes)
      (ground arith)
    ∙ ap (λ x. b ∷ x)
        (decode-break (leb 128 len) (yenc_body next bytes)
          ∙ yenc_decode-yenc_body next bytes (ground arith))
