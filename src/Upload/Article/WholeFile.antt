-- ===== src/Upload/Article/WholeFile.antt =====
-- services/upload_usenet.go: the CRC that yEncodeChunk writes for a file of several parts, while
-- the workers handle the parts of this and of other files in any order.
use loon_agent.Prelude.{
  ℕ, zero, suc, ◌<◌, ◌≡◌, refl, sym, ap, ◌∙◌, fun_ext, subst, inl, inr, Bool, true, false, ◌&&◌,
  not, Option, none, some, List, [], ◌∷◌, arith, all, length, ltb, leb, ◌==◌, ==_iff, if◌then◌else◌,
  Bytes, equal, equal_iff, Bool-cases,
}
use loon_agent.Dict.{Dict, get, remove}
use loon_agent.Upload.Crc.{crc32, crc32_combine}
use loon_agent.Upload.Crc.Combine.{crc32_combine-crc32, crc32-nil}
use loon_agent.Upload.Article.{
  Part, PartCrcInfo, Parts, key_of, find_info, put_info, info_of, info_or_zero, or_fresh,
  load_or_create, combine_parts, register_part, whole_file_crc,
}
use loon_agent.Upload.Article.Parts.{
  all_up_to, insert, count_full, Holds, empty-Holds, put_info-Holds,
}
use loon_agent.Upload.Article.History.{
  Event, registers, written, handle, behind, joined, fits, has_registered, register-same,
  register-other, last_outcome, written-other, all_up_to-last, all_up_to-init,
}

info_at :
    (b : Bool) (info : PartCrcInfo) (o : Option PartCrcInfo)
    → o ≡ (if b then some info else none)
    → b ≡ true
    → o ≡ some info
info_at b info o e h = e ∙ rw h refl

combine_lem :
    (chunk : ℕ → Bytes) (r : ℕ → Bool) (parts : Parts) (n : ℕ)
    → ((k : ℕ) → find_info parts k ≡ (if r k then some (info_of (chunk k)) else none))
    → all_up_to n r ≡ true
    → combine_parts parts n ≡ crc32 (joined n chunk)
unfolding combine_parts info_or_zero
combine_lem chunk r parts zero infos h = sym crc32-nil
combine_lem chunk r parts (suc n) infos h =
    let info : (find_info parts (suc n) ≡ some (info_of (chunk (suc n)))) =
      info_at (r (suc n)) (info_of (chunk (suc n))) (find_info parts (suc n)) (infos (suc n))
        (all_up_to-last n r h) in
    ap
      (λ o.
        crc32_combine (combine_parts parts n) (info_or_zero o).pcrc (info_or_zero o).part_length)
      info
    ∙ (ap (λ c. crc32_combine c (crc32 (chunk (suc n))) (length (chunk (suc n))))
          (combine_lem chunk r parts n infos (all_up_to-init n r h))
        ∙ crc32_combine-crc32 (joined n chunk) (chunk (suc n)))

Holds-eq :
    (n : ℕ) (chunk : ℕ → Bytes) (r r' : ℕ → Bool) (parts parts' : Parts)
    → r ≡ r'
    → parts ≡ parts'
    → Holds n chunk r parts
    → Holds n chunk r' parts'
Holds-eq n chunk r r' parts parts' re pe h =
    subst (λ x. Holds n chunk x parts') re (subst (λ y. Holds n chunk r y) pe h)

register_fitting :
    (s : Dict Parts) (p : Part) (key data_ : Bytes)
    → ltb 1 p.total_parts ≡ true
    → equal (key_of p) key ≡ true
    → equal p.chunk_data data_ ≡ true
    → load_or_create (register_part s p) key
      ≡ put_info (load_or_create s key) p.part_number (info_of data_)
register_fitting s p key data_ many same fit =
    let e = (equal_iff (key_of p) key).0 same in
    ap (load_or_create (register_part s p)) (sym e)
    ∙ (register-same s p many
        ∙ (ap (λ k. put_info (load_or_create s k) p.part_number (info_of p.chunk_data)) e
            ∙ ap (λ d. put_info (load_or_create s key) p.part_number (info_of d))
                ((equal_iff p.chunk_data data_).0 fit)))

fits_registers :
    (final p : Part) (chunk : ℕ → Bytes)
    → equal (key_of p) (key_of final) ≡ true
    → fits final chunk (registers p) ≡ true
    → ((p.total_parts == final.total_parts)
        && ((leb 1 p.part_number && leb p.part_number final.total_parts)
            && equal p.chunk_data (chunk p.part_number)))
      ≡ true
fits_registers final p chunk same h = rw same at h

and_left : (a b : Bool) → (a && b) ≡ true → a ≡ true
and_left a b h = ground arith

and_right : (a b : Bool) → (a && b) ≡ true → b ≡ true
and_right a b h = ground arith

many_too : (m n : ℕ) → 1 < n → (m == n) ≡ true → ltb 1 m ≡ true
many_too m n h e = ground arith

not-true : (b : Bool) → not b ≡ true → b ≡ false
not-true b h = ground arith

behind-Holds :
    (final : Part) (chunk : ℕ → Bytes) (states : Dict Parts) (history : List Event)
    → 1 < final.total_parts
    → get states (key_of final) ≡ none
    → all (fits final chunk) history ≡ true
    → Holds final.total_parts chunk
        (has_registered (key_of final) history)
        (load_or_create (behind states history) (key_of final))
unfolding or_fresh
behind-Holds final chunk states [] many fresh h =
    subst (Holds final.total_parts chunk (λ k. false)) (ap or_fresh (sym fresh))
      (empty-Holds final.total_parts chunk)
behind-Holds final chunk states (registers p ∷ past) many fresh h =
    let n = final.total_parts in
    let key = key_of final in
    let r = has_registered key past in
    let s = behind states past in
    let fit = and_left (fits final chunk (registers p)) (all (fits final chunk) past) h in
    let rest = and_right (fits final chunk (registers p)) (all (fits final chunk) past) h in
    let before = behind-Holds final chunk states past many fresh rest in
    elim (Bool-cases (equal (key_of p) key)) [
      | inl same ↦
          let good = fits_registers final p chunk same fit in
          let inner = and_right (p.total_parts == n) _ good in
          let range = and_left (leb 1 p.part_number && leb p.part_number n) _ inner in
          let data_ = and_right (leb 1 p.part_number && leb p.part_number n) _ inner in
          let total = and_left (p.total_parts == n) _ good in
          Holds-eq n chunk (insert p.part_number r) (has_registered key (registers p ∷ past))
            (put_info (load_or_create s key) p.part_number (info_of (chunk p.part_number)))
            (load_or_create (register_part s p) key) (fun_ext (λ k. rw same refl))
            (sym (
              register_fitting s p key (chunk p.part_number) (many_too p.total_parts n many total)
                same data_))
            (put_info-Holds n chunk r (load_or_create s key) p.part_number range before)
      | inr other ↦
          Holds-eq n chunk r (has_registered key (registers p ∷ past)) (load_or_create s key)
            (load_or_create (register_part s p) key) (fun_ext (λ k. rw other refl))
            (sym (register-other s p key other)) before
    ]
behind-Holds final chunk states (written p ∷ past) many fresh h =
    let n = final.total_parts in
    let key = key_of final in
    let s = behind states past in
    let fit = and_left (fits final chunk (written p)) (all (fits final chunk) past) h in
    let rest = and_right (fits final chunk (written p)) (all (fits final chunk) past) h in
    Holds-eq n chunk (has_registered key past) (has_registered key past) (load_or_create s key)
      (load_or_create (handle s (written p)) key) refl
      (sym (
        written-other s p key
          (not-true (equal (key_of p) key && (p.part_number == p.total_parts)) fit)))
      (behind-Holds final chunk states past many fresh rest)

-- Whatever parts of this and of other files have been handled before, in whatever order, the last
-- part of a file of two parts or more waits while a part of the file has not registered; once all
-- have, its trailer gets the CRC-32 of the whole file, the chunks in the order of their numbers,
-- and the entry of the file is removed. The file has no entry before the history, its parts
-- register with its chunks and are numbered from 1, and its last part has not been written.
pub whole_file_crc_lem :
    (final : Part) (chunk : ℕ → Bytes) (states : Dict Parts) (history : List Event)
    → 1 < final.total_parts
    → final.part_number ≡ final.total_parts
    → get states (key_of final) ≡ none
    → all (fits final chunk) history ≡ true
    → whole_file_crc (behind states history) final ≡ (
        if all_up_to final.total_parts (has_registered (key_of final) history)
        then some (
          some (crc32 (joined final.total_parts chunk)),
          remove (behind states history) (key_of final),
        )
        else none)
whole_file_crc_lem final chunk states history many last fresh h =
    let n = final.total_parts in
    let key = key_of final in
    let r = has_registered key history in
    let s = behind states history in
    let (len, infos) = behind-Holds final chunk states history many fresh h in
    last_outcome s final (ground arith) ((==_iff final.part_number n).1 last)
    ∙ (elim (Bool-cases (all_up_to n r)) [
      | inl complete ↦
          rw (ap (λ l. ltb l n) len ∙ (count_full n r ∙ ap not complete), complete)
            (ap (λ c. some (some c, remove s key))
              (combine_lem chunk r (load_or_create s key) n infos complete))
      | inr missing ↦ rw (ap (λ l. ltb l n) len ∙ (count_full n r ∙ ap not missing), missing) refl
    ])
