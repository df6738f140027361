-- ===== src/Upload/Content/CrashDumps.antt =====
-- services/upload_obfuscate.go: which crash dumps `core.<pid>` the allowlist lets through.
use loon_agent.Prelude.{
  ◌≡◌, refl, Bool, true, false, ◌||◌, List, [], ◌∷◌, ◌++◌, arith, ◌==◌, Bytes, codes, equal,
  contains, any, all, length, to_lower, not, equal_iff,
}
use loon_agent.FilePath.{ext, is_slash}
use loon_agent.Upload.Content.{content_exts, is_digit, is_split_archive_part, is_uploadable_content}

abbrev dot_digits : Bytes → Bytes
dot_digits pid = b'.' ∷ pid

no_delimiter :
    (pid : Bytes) → all is_digit pid ≡ true → any (λ d. is_slash d || (d == b'.')) pid ≡ false
no_delimiter [] h = refl
no_delimiter (c ∷ s) h = ground (arith, no_delimiter s)

ext-dot_digits : (pid : Bytes) → all is_digit pid ≡ true → ext (dot_digits pid) ≡ dot_digits pid
unfolding ext
ext-dot_digits pid h = rw (no_delimiter pid h) refl

ext-core : (pid : Bytes) → all is_digit pid ≡ true → ext (codes "core." ++ pid) ≡ dot_digits pid
unfolding ext
ext-core pid h = rw (no_delimiter pid h) refl

digits-lower : (pid : Bytes) → all is_digit pid ≡ true → to_lower pid ≡ pid
digits-lower [] h = refl
digits-lower (c ∷ s) h = ground (arith, digits-lower s)

abbrev without_dot : Bytes → Bytes
without_dot [] = []
without_dot (_ ∷ s) = s

-- Every extension has a byte, after its dot, that is no digit.
has_letter : List Bytes → Bool
has_letter = all (λ e. not (all is_digit (without_dot e)))

equal_digits :
    (pid e : Bytes)
    → all is_digit pid ≡ true
    → all is_digit (without_dot e) ≡ false
    → equal (dot_digits pid) e ≡ false
equal_digits pid [] h l = refl
equal_digits pid (c ∷ s) h l = ground (arith, equal_iff pid s)

contains_digits :
    (names : List Bytes) (pid : Bytes)
    → all is_digit pid ≡ true
    → has_letter names ≡ true
    → contains names (dot_digits pid) ≡ false
unfolding has_letter
contains_digits [] pid h l = refl
contains_digits (e ∷ es) pid h l = ground (arith, equal_digits pid e, contains_digits es pid)

content_exts_lem : has_letter content_exts ≡ true
unfolding has_letter
content_exts_lem = refl

split_digits :
    (pid : Bytes)
    → all is_digit pid ≡ true
    → is_split_archive_part (dot_digits pid) ≡ (length pid == 3)
unfolding is_split_archive_part
split_digits [] h = refl
split_digits (a ∷ []) h = refl
split_digits (a ∷ b ∷ []) h = refl
split_digits (a ∷ b ∷ c ∷ []) h = ground arith
split_digits (a ∷ b ∷ c ∷ d ∷ s) h = ground arith

-- A crash dump `core.<pid>`, its process number written in digits, is uploadable exactly when the
-- number has three digits: those the rule for split archives takes for a volume.
pub uploadable_crash_dump :
    (pid : Bytes)
    → all is_digit pid ≡ true
    → is_uploadable_content (codes "core." ++ pid) ≡ (length pid == 3)
unfolding is_uploadable_content
uploadable_crash_dump pid h =
    rw (ext-core pid h, digits-lower pid h, contains_digits content_exts pid h content_exts_lem)
      (split_digits pid h)
