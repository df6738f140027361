-- ===== src/Offline/Names.antt =====
-- services/upload_obfuscate.go and network_offline_processor.go: names made of titles and groups.
-- Texts are UTF-8; white space is that of ASCII.
use loon_agent.Prelude.{
  ℕ, zero, suc, ◌≤◌, ◌≡◌, refl, inl, inr, Bool, false, ◌&&◌, ◌||◌, [], ◌∷◌, any, ltb, leb, ◌==◌,
  if◌then◌else◌, arith, Bytes, codes, equal, trim_space, Bool-cases, if_both,
}
use loon_agent.FilePath.{is_slash}

abbrev is_reserved : ℕ → Bool
is_reserved c = any (λ r. r == c) (codes "/\\:*?\"<>|")

-- The third byte of the fullwidth forms of these after EF BC; the bar is EF BD 9C.
abbrev is_fullwidth : ℕ → ℕ → ℕ → Bool
is_fullwidth a b c =
    (a == 239)
    && (((b == 188) && any (λ r. r == c) (154 ∷ 159 ∷ 130 ∷ 156 ∷ 158 ∷ 138 ∷ 188 ∷ 143 ∷ []))
        || ((b == 189) && (c == 156)))

abbrev replaced_byte : ℕ → ℕ
replaced_byte c = if is_reserved c then b'_' else c

-- The strings.NewReplacer of SanitizeBaseName.
unfoldable pub replace_reserved : Bytes → Bytes
replace_reserved [] = []
replace_reserved (a ∷ []) = replaced_byte a ∷ []
replace_reserved (a ∷ b ∷ []) = replaced_byte a ∷ replaced_byte b ∷ []
replace_reserved (a ∷ b ∷ c ∷ s) =
    let one = replace_reserved (b ∷ c ∷ s) in
    let three = replace_reserved s in
    if is_fullwidth a b c then b'_' ∷ three else replaced_byte a ∷ one

-- A byte that does not begin a rune.
abbrev is_continuation : ℕ → Bool
is_continuation c = leb 128 c && leb c 191

unfoldable pub rune_count : Bytes → ℕ
rune_count [] = 0
rune_count (c ∷ s) = let n = rune_count s in if is_continuation c then n else suc n

-- The bytes of the first `n` runes, string(r[:n]).
unfoldable pub take_runes : ℕ → Bytes → Bytes
take_runes n [] = []
take_runes zero (c ∷ s) = let rest = take_runes zero s in if is_continuation c then c ∷ rest else []
take_runes (suc n) (c ∷ s) =
    let same = take_runes (suc n) s in
    let fewer = take_runes n s in if is_continuation c then c ∷ same else c ∷ fewer

-- An empty name is replaced by the random one.
unfoldable pub sanitize_base_name : Bytes → Bytes → Bytes
unfolding replace_reserved rune_count take_runes
sanitize_base_name random title =
    let name = replace_reserved (trim_space title) in
    if equal name []
    then random
    else if ltb 200 (rune_count name)
    then take_runes 200 name
    else name

abbrev dir_byte : ℕ → ℕ
dir_byte c = if is_reserved c || (c == 32) then b'_' else c

abbrev dir_bytes : Bytes → Bytes
dir_bytes [] = []
dir_bytes (c ∷ s) = dir_byte c ∷ dir_bytes s

unfoldable pub sanitize_dir_name : Bytes → Bytes
sanitize_dir_name s =
    let name = trim_space s in if equal name [] then codes "unnamed" else dir_bytes name

abbrev pub has_slash : Bytes → Bool
has_slash = any is_slash

replaced-not_slash : (c : ℕ) → is_slash (replaced_byte c) ≡ false
replaced-not_slash c = ground arith

replace_reserved-has_slash : (s : Bytes) → has_slash (replace_reserved s) ≡ false
unfolding replace_reserved
replace_reserved-has_slash [] = refl
replace_reserved-has_slash (a ∷ []) = rw (replaced-not_slash a) refl
replace_reserved-has_slash (a ∷ b ∷ []) = rw (replaced-not_slash a, replaced-not_slash b) refl
replace_reserved-has_slash (a ∷ b ∷ c ∷ s) =
    if_both (is_fullwidth a b c) (λ r. has_slash r ≡ false) _ _ (replace_reserved-has_slash s)
      (rw (replaced-not_slash a) (replace_reserved-has_slash (b ∷ c ∷ s)))

take_runes-has_slash :
    (n : ℕ) (s : Bytes) → has_slash s ≡ false → has_slash (take_runes n s) ≡ false
unfolding take_runes
take_runes-has_slash n [] h = refl
take_runes-has_slash zero (c ∷ s) h = ground (arith, take_runes-has_slash zero s)
take_runes-has_slash (suc n) (c ∷ s) h =
    ground (arith, take_runes-has_slash (suc n) s, take_runes-has_slash n s)

take_runes-rune_count : (n : ℕ) (s : Bytes) → rune_count (take_runes n s) ≤ n
unfolding take_runes rune_count
take_runes-rune_count n [] = ground arith
take_runes-rune_count zero (c ∷ s) = ground (arith, take_runes-rune_count zero s)
take_runes-rune_count (suc n) (c ∷ s) =
    ground (arith, take_runes-rune_count (suc n) s, take_runes-rune_count n s)

not_more : (n m : ℕ) → ltb m n ≡ false → n ≤ m
not_more n m h = ground arith

-- With a random name that has no slash and at most 200 runes, as the 12 letters and digits of
-- GenerateRandomPassword, the name that SanitizeBaseName makes of a title has none and at most 200.
pub sanitize_base_name_lem :
    (random title : Bytes)
    → has_slash random ≡ false
    → rune_count random ≤ 200
    → (has_slash (sanitize_base_name random title) ≡ false)
      × (rune_count (sanitize_base_name random title) ≤ 200)
unfolding sanitize_base_name
sanitize_base_name_lem random title plain short =
    let name = replace_reserved (trim_space title) in
    let clean = replace_reserved-has_slash (trim_space title) in
    elim (Bool-cases (equal name [])) [
      | inl empty ↦ rw empty (plain, short)
      | inr named ↦ rw named (elim (Bool-cases (ltb 200 (rune_count name))) [
        | inl long ↦ rw long (take_runes-has_slash 200 name clean, take_runes-rune_count 200 name)
        | inr fits ↦ rw fits (clean, not_more (rune_count name) 200 fits)
      ])
    ]
