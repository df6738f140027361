-- ===== src/Extract/Confined.antt =====
-- services/extract_zip.go and services/extract_tar.go: no entry is written outside the directory.
use loon_agent.Prelude.{
  ℕ, suc, ◌≡◌, refl, ◌∙◌, inl, inr, Bool, true, false, ◌&&◌, ◌||◌, not, Option, none, some, List,
  [], ◌∷◌, ◌++◌, arith, all, all-append, Bytes, equal, has_prefix, contains, Bool-cases,
}
use loon_agent.FilePath.{split_slash, dot_dot, starts_rooted}
use loon_agent.FilePath.Rooted.{clean-no_dot_dot}
use loon_agent.Extract.{
  EntryKind, directory, regular, other, Entry, Effect, make_dirs, write_file, ExtractError,
  join_path, is_inside, effects_of, perform, then_rest, extract_entry, Header, next_entry, broken,
  write_tar_entries, zip_kind, extract_zip_entries,
}

-- The directory itself, or a path that goes on behind it with a slash.
abbrev pub is_below : Bytes → Bytes → Bool
is_below abs_out path = equal path abs_out || has_prefix path (abs_out ++ (b'/' ∷ []))

-- A file is created below the directory, by a path without "..".
abbrev pub is_confined : Bytes → Effect → Bool
is_confined abs_out (make_dirs path) = true
is_confined abs_out (write_file path) =
    is_below abs_out path && not (contains (split_slash path) dot_dot)

starts_rooted-append : (a b : Bytes) → starts_rooted a ≡ true → starts_rooted (a ++ b) ≡ true
starts_rooted-append [] b h = cc
starts_rooted-append (c ∷ a) b h = h

module _ (abs_out : Bytes) (rooted : starts_rooted abs_out ≡ true) where
  target-no_dot_dot :
      (name : Bytes) → contains (split_slash (join_path abs_out name)) dot_dot ≡ false
  target-no_dot_dot name =
      clean-no_dot_dot (abs_out ++ (b'/' ∷ name))
        (starts_rooted-append abs_out (b'/' ∷ name) rooted)

  effects_of-is_confined :
      (kind : EntryKind) (name : Bytes)
      → is_inside abs_out (join_path abs_out name) ≡ true
      → all (is_confined abs_out) (effects_of kind (join_path abs_out name)) ≡ true
  unfolding effects_of
  effects_of-is_confined directory name h = refl
  effects_of-is_confined regular name h = rw (target-no_dot_dot name) (ground arith)
  effects_of-is_confined other name h = refl

perform-all :
    (p : Effect → Bool) (fails : Effect → Bool) (es : List Effect)
    → all p es ≡ true
    → all p (perform fails es).0 ≡ true
unfolding perform
perform-all p fails [] h = refl
perform-all p fails (e ∷ es) h = elim (Bool-cases (fails e)) [
  | inl stops ↦ rw stops (ground arith)
  | inr goes ↦ rw goes (ground (arith, perform-all p fails es))
]

then_rest-all :
    (p : Effect → Bool) (a b : List Effect × Option ExtractError)
    → all p a.0 ≡ true
    → all p b.0 ≡ true
    → all p (then_rest a b).0 ≡ true
then_rest-all p (done, none) (more, failed) h k = all-append p done more ∙ ground arith
then_rest-all p (done, some e) b h k = h

extract_entry-is_confined :
    (fails : Effect → Bool) (abs_out : Bytes) (e : Entry)
    → starts_rooted abs_out ≡ true
    → all (is_confined abs_out) (extract_entry fails abs_out e).0 ≡ true
extract_entry-is_confined fails abs_out e rooted =
    elim (Bool-cases (is_inside abs_out (join_path abs_out e.name))) [
      | inl inside ↦ rw inside (
          perform-all (is_confined abs_out) fails (effects_of e.kind (join_path abs_out e.name))
            (effects_of-is_confined abs_out rooted e.kind e.name inside))
      | inr outside ↦ rw outside refl
    ]

write_tar_entries-is_confined :
    (is_done : ℕ → Bool) (fails : Effect → Bool) (abs_out : Bytes) (i : ℕ) (headers : List Header)
    → starts_rooted abs_out ≡ true
    → all (is_confined abs_out) (write_tar_entries is_done fails abs_out i headers).0 ≡ true
unfolding write_tar_entries
write_tar_entries-is_confined is_done fails abs_out i [] rooted = elim (Bool-cases (is_done i)) [
  | inl stops ↦ rw stops refl
  | inr goes ↦ rw goes refl
]
write_tar_entries-is_confined is_done fails abs_out i (broken ∷ headers) rooted =
    elim (Bool-cases (is_done i)) [ inl stops ↦ rw stops refl | inr goes ↦ rw goes refl ]
write_tar_entries-is_confined is_done fails abs_out i (next_entry e ∷ headers) rooted =
    elim (Bool-cases (is_done i)) [
      | inl stops ↦ rw stops refl
      | inr goes ↦ rw goes (
          then_rest-all (is_confined abs_out) (extract_entry fails abs_out e)
            (write_tar_entries is_done fails abs_out (suc i) headers)
            (extract_entry-is_confined fails abs_out e rooted)
            (write_tar_entries-is_confined is_done fails abs_out (suc i) headers rooted))
    ]

extract_zip_entries-is_confined :
    (is_done : ℕ → Bool) (fails : Effect → Bool) (abs_out : Bytes) (i : ℕ) (es : List Entry)
    → starts_rooted abs_out ≡ true
    → all (is_confined abs_out) (extract_zip_entries is_done fails abs_out i es).0 ≡ true
unfolding extract_zip_entries
extract_zip_entries-is_confined is_done fails abs_out i [] rooted = refl
extract_zip_entries-is_confined is_done fails abs_out i (e ∷ es) rooted =
    elim (Bool-cases (is_done i)) [
      | inl stops ↦ rw stops refl
      | inr goes ↦ rw goes (
          then_rest-all (is_confined abs_out)
            (extract_entry fails abs_out (record e { kind = zip_kind e.kind }))
            (extract_zip_entries is_done fails abs_out (suc i) es)
            (extract_entry-is_confined fails abs_out (record e { kind = zip_kind e.kind }) rooted)
            (extract_zip_entries-is_confined is_done fails abs_out (suc i) es rooted))
    ]

-- Whatever the entries of an archive say, whichever effects fail and whenever the context is done,
-- an extraction into an absolute directory, by writeTarEntries or by extractOneZIP, creates files
-- only at that path or below it, by paths without "..".
pub extraction-is_confined :
    (is_done : ℕ → Bool) (fails : Effect → Bool) (abs_out : Bytes) (headers : List Header)
    (es : List Entry)
    → starts_rooted abs_out ≡ true
    → (all (is_confined abs_out) (write_tar_entries is_done fails abs_out 0 headers).0 ≡ true)
      × (all (is_confined abs_out) (extract_zip_entries is_done fails abs_out 0 es).0 ≡ true)
extraction-is_confined is_done fails abs_out headers es rooted = (
  write_tar_entries-is_confined is_done fails abs_out 0 headers rooted,
  extract_zip_entries-is_confined is_done fails abs_out 0 es rooted,
)
