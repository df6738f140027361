-- ===== src/Upload/Article/History.antt =====
-- services/upload_usenet.go: the workers handle the parts of files in any order.
use loon_agent.Prelude.{
  ℕ, zero, suc, ◌≡◌, refl, ap, ◌∙◌, inl, inr, Bool, true, false, ◌&&◌, ◌||◌, not, Option, none,
  some, List, [], ◌∷◌, ◌++◌, arith, length, ltb, leb, ◌==◌, if◌then◌else◌, Bytes, equal, equal_iff,
  Bool-cases,
}
use loon_agent.Dict.{Dict, put, remove, get-put, get-remove}
use loon_agent.Upload.Crc.{Word32, crc32}
use loon_agent.Upload.Article.{
  Part, Parts, key_of, put_info, info_of, or_fresh, load_or_create, combine_parts, register_part,
  whole_file_crc,
}
use loon_agent.Upload.Article.Parts.{all_up_to}

-- A step of a worker: a part registers, or goes on to be written if it need not wait.
pub data Event : Type 0 where
  registers : Part → Event
  written : Part → Event

unfoldable pub states_after : Dict Parts → Option (Option Word32 × Dict Parts) → Dict Parts
states_after states none = states
states_after states (some (_, next)) = next

abbrev pub handle : Dict Parts → Event → Dict Parts
handle states (registers p) = register_part states p
handle states (written p) = states_after states (whole_file_crc states p)

-- The states behind a history, whose last event stands first.
abbrev pub behind : Dict Parts → List Event → Dict Parts
behind states [] = states
behind states (e ∷ past) = handle (behind states past) e

-- The chunks 1 to `n` of a file, one behind the other.
abbrev pub joined : ℕ → (ℕ → Bytes) → Bytes
joined zero chunk = []
joined (suc n) chunk = joined n chunk ++ chunk (suc n)

-- What belongs to the file of the last part `final` is a part of it, with its chunk; and the last
-- part has not been written.
abbrev pub fits : Part → (ℕ → Bytes) → Event → Bool
fits final chunk (registers p) =
    if equal (key_of p) (key_of final)
    then (p.total_parts == final.total_parts)
      && ((leb 1 p.part_number && leb p.part_number final.total_parts)
          && equal p.chunk_data (chunk p.part_number))
    else true
fits final chunk (written p) =
    not (equal (key_of p) (key_of final) && (p.part_number == p.total_parts))

abbrev pub has_registered : Bytes → List Event → ℕ → Bool
has_registered key [] k = false
has_registered key (registers p ∷ past) k =
    (equal (key_of p) key && (p.part_number == k)) || has_registered key past k
has_registered key (written p ∷ past) k = has_registered key past k

load-put_same :
    (s : Dict Parts) (key : Bytes) (parts : Parts) → load_or_create (put s key parts) key ≡ parts
unfolding or_fresh
load-put_same s key parts =
    ap or_fresh (get-put s key parts key) ∙ rw ((equal_iff key key).1 refl) refl

pub all_up_to-last : (n : ℕ) (r : ℕ → Bool) → all_up_to (suc n) r ≡ true → r (suc n) ≡ true
all_up_to-last n r h = ground arith

pub all_up_to-init : (n : ℕ) (r : ℕ → Bool) → all_up_to (suc n) r ≡ true → all_up_to n r ≡ true
all_up_to-init n r h = ground arith

module _ {ℓ ℓ'} {A : Type ℓ} {B : Type ℓ'} where
  if_either :
      (b : Bool) (x y : A) (f : A → B) (z : B)
      → (b ≡ true → f x ≡ z)
      → (b ≡ false → f y ≡ z)
      → f (if b then x else y) ≡ z
  if_either true x y f z h k = h refl
  if_either false x y f z h k = k refl

pub register-same :
    (s : Dict Parts) (p : Part)
    → ltb 1 p.total_parts ≡ true
    → load_or_create (register_part s p) (key_of p)
      ≡ put_info (load_or_create s (key_of p)) p.part_number (info_of p.chunk_data)
unfolding register_part
register-same s p h = rw h (
    load-put_same s (key_of p)
      (put_info (load_or_create s (key_of p)) p.part_number (info_of p.chunk_data)))

pub register-other :
    (s : Dict Parts) (p : Part) (key : Bytes)
    → equal (key_of p) key ≡ false
    → load_or_create (register_part s p) key ≡ load_or_create s key
unfolding register_part
register-other s p key h = elim (Bool-cases (ltb 1 p.total_parts)) [
  | inl many ↦ rw many (
      ap or_fresh (
        get-put s (key_of p)
          (put_info (load_or_create s (key_of p)) p.part_number (info_of p.chunk_data)) key
        ∙ rw h refl))
  | inr one ↦ rw one refl
]

get-remove_other :
    (s : Dict Parts) (k key : Bytes)
    → equal k key ≡ false
    → load_or_create (remove s k) key ≡ load_or_create s key
get-remove_other s k key h = ap or_fresh (get-remove s k key ∙ rw h refl)

and_false : (a b : Bool) → (a && b) ≡ false → b ≡ true → a ≡ false
and_false a b h t = ground arith

pub last_outcome :
    (s : Dict Parts) (p : Part)
    → ltb 1 p.total_parts ≡ true
    → (p.part_number == p.total_parts) ≡ true
    → whole_file_crc s p ≡ (
        if ltb (length (load_or_create s (key_of p))) p.total_parts
        then none
        else some
            (some (combine_parts (load_or_create s (key_of p)) p.total_parts), remove s (key_of p)))
unfolding whole_file_crc
last_outcome s p many last = rw (many, last) refl

early_outcome :
    (s : Dict Parts) (p : Part)
    → ltb 1 p.total_parts ≡ true
    → (p.part_number == p.total_parts) ≡ false
    → whole_file_crc s p ≡ some (none, s)
unfolding whole_file_crc
early_outcome s p many early = rw (many, early) refl

single_outcome :
    (s : Dict Parts) (p : Part)
    → ltb 1 p.total_parts ≡ false
    → (c : Option Word32) × (whole_file_crc s p ≡ some (c, s))
unfolding whole_file_crc
single_outcome s p one = elim (Bool-cases (p.total_parts == 1)) [
  | inl single ↦ (some (crc32 p.chunk_data), rw (one, single) refl)
  | inr none_ ↦ (none, rw (one, none_) refl)
]

-- A part of another file, or one that is not the last, leaves the file's entry.
pub written-other :
    (s : Dict Parts) (p : Part) (key : Bytes)
    → (equal (key_of p) key && (p.part_number == p.total_parts)) ≡ false
    → load_or_create (handle s (written p)) key ≡ load_or_create s key
unfolding states_after
written-other s p key h =
    let parts = load_or_create s (key_of p) in
    let done : Option (Option Word32 × Dict Parts) =
      some (some (combine_parts parts p.total_parts), remove s (key_of p)) in
    let left : Option (Option Word32 × Dict Parts) → Parts =
      λ o. load_or_create (states_after s o) key in
    elim (Bool-cases (ltb 1 p.total_parts)) [
      | inl many ↦ elim (Bool-cases (p.part_number == p.total_parts)) [
        | inl last ↦
            ap left (last_outcome s p many last)
            ∙ if_either (ltb (length parts) p.total_parts) none done left (load_or_create s key)
                (λ waits. refl)
                (λ complete.
                  get-remove_other s (key_of p) key
                    (and_false (equal (key_of p) key) (p.part_number == p.total_parts) h last))
        | inr early ↦ ap left (early_outcome s p many early)
      ]
      | inr one ↦ let (c, e) = single_outcome s p one in ap left e
    ]
