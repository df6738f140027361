-- ===== src/Config/Quoting.antt =====
-- config/layered.go: a line that WriteYml writes is read back by loadYml.
use loon_agent.Prelude.{
  ℕ, ◌≡◌, refl, ap, ◌∙◌, inl, inr, Bool, true, false, ◌&&◌, ◌||◌, not, some, List, [], ◌∷◌, ◌++◌,
  any, all, leb, ◌==◌, if◌then◌else◌, arith, Bytes, equal, equal_iff, to_lower, lower_byte,
  is_space, trim_left, trim_right, trim_space, Bool-cases,
}
use loon_agent.Config.{
  split_colon, is_quote, trim_quotes, is_skipped, entry_of, needs_quotes, quoted_byte, quoted_bytes,
  rendered, line_of,
}

-- Printable ASCII without white space, colon, "#" and capitals.
abbrev pub is_key_byte : ℕ → Bool
is_key_byte c = leb 33 c && leb c 126 && not ((c == 58) || (c == 35) || (leb 65 c && leb c 90))

abbrev pub is_key : Bytes → Bool
is_key [] = false
is_key (c ∷ s) = all is_key_byte (c ∷ s)

-- Printable ASCII without quotes and backslash.
abbrev pub is_value_byte : ℕ → Bool
is_value_byte c = leb 32 c && leb c 126 && not ((c == 34) || (c == 39) || (c == 92))

abbrev pub is_value : Bytes → Bool
is_value v =
    all is_value_byte v && (equal (trim_left is_space v) v && equal (trim_right is_space v) v)

module _ (p : ℕ → Bool) where
  put_first :
      (c : ℕ) (t : Bytes)
      → p c ≡ false
      → (elim t [ [] ↦ if p c then [] else c ∷ [] | d ∷ r ↦ c ∷ d ∷ r ]) ≡ c ∷ t
  put_first c [] h = rw h refl
  put_first c (d ∷ r) h = refl

  put_before :
      (c d : ℕ) (r t : Bytes)
      → t ≡ d ∷ r
      → (elim t [ [] ↦ if p c then [] else c ∷ [] | e ∷ s ↦ c ∷ e ∷ s ]) ≡ c ∷ t
  put_before c d r t h = rw h refl

  append-cons : (a b : Bytes) (c : ℕ) → (d : ℕ) × (r : List ℕ) × (a ++ (c ∷ b) ≡ d ∷ r)
  append-cons [] b c = (c, b, refl)
  append-cons (x ∷ a) b c = (x, a ++ (c ∷ b), refl)

  -- What stands before a byte that stays, stays.
  pub trim_right-append :
      (a b : Bytes) (c : ℕ) → p c ≡ false → trim_right p (a ++ (c ∷ b)) ≡ a ++ (c ∷ trim_right p b)
  trim_right-append [] b c h = put_first c (trim_right p b) h
  trim_right-append (x ∷ a) b c h =
      let (d, r, e) = append-cons a (trim_right p b) c in
      put_before x d r (trim_right p (a ++ (c ∷ b))) (trim_right-append a b c h ∙ e)
      ∙ ap (λ t. x ∷ t) (trim_right-append a b c h)

  trim_right_none : (v : Bytes) → all (λ c. not (p c)) v ≡ true → trim_right p v ≡ v
  trim_right_none [] h = refl
  trim_right_none (c ∷ v) h =
      put_first c (trim_right p v) (ground arith)
      ∙ ap (λ t. c ∷ t) (trim_right_none v (ground arith))

  trim_left_none : (v : Bytes) → all (λ c. not (p c)) v ≡ true → trim_left p v ≡ v
  trim_left_none [] h = refl
  trim_left_none (c ∷ v) h = ground arith

  -- A last byte that goes is no matter.
  trim_right-last : (v : Bytes) (c : ℕ) → p c ≡ true → trim_right p (v ++ (c ∷ [])) ≡ trim_right p v
  trim_right-last [] c h = rw h refl
  trim_right-last (x ∷ v) c h =
      ap (λ (t : Bytes). (elim t [ [] ↦ if p x then [] else x ∷ [] | d ∷ r ↦ x ∷ d ∷ r ]))
        (trim_right-last v c h)

quoted_byte_plain : (c : ℕ) → is_value_byte c ≡ true → quoted_byte c ≡ c ∷ []
quoted_byte_plain c h = ground arith

pub quoted_bytes_plain : (v : Bytes) → all is_value_byte v ≡ true → quoted_bytes v ≡ v
quoted_bytes_plain [] h = refl
quoted_bytes_plain (c ∷ v) h =
    ap (λ t. t ++ quoted_bytes v) (quoted_byte_plain c (ground arith))
    ∙ ap (λ t. c ∷ t) (quoted_bytes_plain v (ground arith))

no_quotes : (v : Bytes) → all is_value_byte v ≡ true → all (λ c. not (is_quote c)) v ≡ true
no_quotes [] h = refl
no_quotes (c ∷ v) h = ground (arith, no_quotes v)

skip_quote :
    (c : ℕ) (v : Bytes)
    → is_quote c ≡ false
    → trim_left is_quote (34 ∷ ((c ∷ v) ++ (34 ∷ []))) ≡ (c ∷ v) ++ (34 ∷ [])
skip_quote c v h = rw h refl

trim_quoted :
    (v : Bytes)
    → all (λ c. not (is_quote c)) v ≡ true
    → any needs_quotes v ≡ true
    → trim_quotes (34 ∷ (v ++ (34 ∷ []))) ≡ v
trim_quoted [] h k = cc
trim_quoted (c ∷ v) h k =
    ap (trim_right is_quote) (skip_quote c v (ground arith))
    ∙ (trim_right-last is_quote (c ∷ v) 34 refl ∙ trim_right_none is_quote (c ∷ v) h)

trim_quotes-rendered : (v : Bytes) → all is_value_byte v ≡ true → trim_quotes (rendered v) ≡ v
trim_quotes-rendered v h = elim (Bool-cases (any needs_quotes v)) [
  | inl needs ↦ rw needs (
      ap (λ t. trim_quotes (34 ∷ (t ++ (34 ∷ [])))) (quoted_bytes_plain v h)
      ∙ trim_quoted v (no_quotes v h) needs)
  | inr plain ↦ rw plain (
      ap (trim_right is_quote) (trim_left_none is_quote v (no_quotes v h))
      ∙ trim_right_none is_quote v (no_quotes v h))
]

-- White space stands neither in front nor behind.
abbrev IsSolid : Bytes → Type 0
IsSolid v = (trim_left is_space v ≡ v) × (trim_right is_space v ≡ v)

quoted-IsSolid : (v : Bytes) → IsSolid (34 ∷ (v ++ (34 ∷ [])))
quoted-IsSolid v = (refl, trim_right-append is_space (34 ∷ v) [] 34 refl)

rendered-IsSolid : (v : Bytes) → is_value v ≡ true → IsSolid (rendered v)
rendered-IsSolid v h = elim (Bool-cases (any needs_quotes v)) [
  | inl needs ↦ rw needs (quoted-IsSolid (quoted_bytes v))
  | inr plain ↦ rw plain (
    (equal_iff (trim_left is_space v) v).0 (ground arith),
    (equal_iff (trim_right is_space v) v).0 (ground arith),
  )
]

space_before : (r : Bytes) → IsSolid r → trim_space (trim_right is_space (32 ∷ r)) ≡ r
space_before [] (left, right) = refl
space_before (c ∷ r) (left, right) =
    ap trim_space (put_before is_space 32 c r (trim_right is_space (c ∷ r)) right)
    ∙ (ap trim_space (ap (λ t. 32 ∷ t) right) ∙ (ap (trim_right is_space) left ∙ right))

key_solid : (k : Bytes) → all is_key_byte k ≡ true → all (λ c. not (is_space c)) k ≡ true
key_solid [] h = refl
key_solid (c ∷ k) h = ground (arith, key_solid k)

lower_key_byte : (c : ℕ) → is_key_byte c ≡ true → lower_byte c ≡ c
lower_key_byte c h = ground arith

lower_key : (k : Bytes) → all is_key_byte k ≡ true → to_lower k ≡ k
lower_key [] h = refl
lower_key (c ∷ k) h =
    ap (λ d. d ∷ to_lower k) (lower_key_byte c (ground arith))
    ∙ ap (λ t. c ∷ t) (lower_key k (ground arith))

split_colon_step :
    (c : ℕ) (s k t : Bytes)
    → (c == 58) ≡ false
    → split_colon s ≡ some (k, t)
    → split_colon (c ∷ s) ≡ some (c ∷ k, t)
unfolding split_colon
split_colon_step c s k t h e = rw h (rw e refl)

split_colon_key :
    (k t : Bytes) → all is_key_byte k ≡ true → split_colon (k ++ (58 ∷ t)) ≡ some (k, t)
unfolding split_colon
split_colon_key [] t h = refl
split_colon_key (c ∷ k) t h =
    split_colon_step c (k ++ (58 ∷ t)) k t (ground arith) (split_colon_key k t (ground arith))

trim_key : (k : Bytes) → all is_key_byte k ≡ true → to_lower (trim_space k) ≡ k
trim_key k h =
    ap (λ t. to_lower (trim_right is_space t)) (trim_left_none is_space k (key_solid k h))
    ∙ (ap to_lower (trim_right_none is_space k (key_solid k h)) ∙ lower_key k h)

first_stays : (c : ℕ) (s : Bytes) → is_key_byte c ≡ true → trim_left is_space (c ∷ s) ≡ c ∷ s
first_stays c s h = ground arith

first_counts : (c : ℕ) (s : Bytes) → is_key_byte c ≡ true → is_skipped (c ∷ s) ≡ false
first_counts c s h = ground arith

trimmed_line :
    (c : ℕ) (k v : Bytes)
    → is_key_byte c ≡ true
    → trim_space (line_of (c ∷ k) v) ≡ (c ∷ k) ++ (58 ∷ trim_right is_space (32 ∷ rendered v))
trimmed_line c k v h =
    ap (trim_right is_space) (first_stays c (k ++ (58 ∷ 32 ∷ rendered v)) h)
    ∙ trim_right-append is_space (c ∷ k) (32 ∷ rendered v) 58 refl

read_entry :
    (c : ℕ) (s k t v : Bytes)
    → is_skipped (c ∷ s) ≡ false
    → split_colon (c ∷ s) ≡ some (k, t)
    → to_lower (trim_space k) ≡ k
    → trim_quotes (trim_space t) ≡ v
    → entry_of (c ∷ s) ≡ some (k, v)
read_entry c s k t v counts e ek ev = rw counts (rw (e, ek, ev) refl)

-- A line for a plain key and a plain value is read as that entry.
pub entry_of-line_of :
    (k v : Bytes)
    → is_key k ≡ true
    → is_value v ≡ true
    → entry_of (trim_space (line_of k v)) ≡ some (k, v)
entry_of-line_of [] v hk hv = cc
entry_of-line_of (c ∷ k) v hk hv =
    let t = trim_right is_space (32 ∷ rendered v) in
    ap entry_of (trimmed_line c k v (ground arith))
    ∙ read_entry c (k ++ (58 ∷ t)) (c ∷ k) t v (first_counts c (k ++ (58 ∷ t)) (ground arith))
        (split_colon_key (c ∷ k) t hk) (trim_key (c ∷ k) hk)
        (ap trim_quotes (space_before (rendered v) (rendered-IsSolid v hv))
          ∙ trim_quotes-rendered v (ground arith))
