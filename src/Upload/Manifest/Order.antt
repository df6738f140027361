-- ===== src/Upload/Manifest/Order.antt =====
-- services/upload_manifest.go: the sorted list of the video files.
use loon_agent.Prelude.{◌≡◌, refl, true, false, List, [], ◌∷◌, arith, Bytes, Bool-cases, inl, inr}
use mathlib.Core.List.{Perm}
use mathlib.Core.List.Perm
use loon_agent.Upload.Manifest.{ManifestEntry, less, insert, sort}

less_asymm : (a b : Bytes) → less a b ≡ true → less b a ≡ false
less_asymm [] [] h = refl
less_asymm [] (y ∷ ys) h = refl
less_asymm (x ∷ xs) [] h = cc
less_asymm (x ∷ xs) (y ∷ ys) h = ground (arith, less_asymm xs ys)

-- No entry has a path below that of the entry before it.
abbrev pub IsSorted : List ManifestEntry → Type 0
IsSorted [] = Unit
IsSorted (e ∷ []) = Unit
IsSorted (e ∷ f ∷ fs) = (less f.rel_path e.rel_path ≡ false) × IsSorted (f ∷ fs)

insert-IsSorted :
    (e : ManifestEntry) (es : List ManifestEntry) → IsSorted es → IsSorted (insert e es)
unfolding insert
insert-IsSorted e [] h = tt
insert-IsSorted e (f ∷ []) h = elim (Bool-cases (less f.rel_path e.rel_path)) [
  | inl below ↦ rw below (less_asymm f.rel_path e.rel_path below, tt)
  | inr above ↦ rw above (above, tt)
]
insert-IsSorted e (f ∷ g ∷ fs) h = elim (Bool-cases (less f.rel_path e.rel_path)) [
  | inr above ↦ rw above (above, h)
  | inl below ↦ rw below (elim (Bool-cases (less g.rel_path e.rel_path)) [
    | inl next ↦ let ih = insert-IsSorted e (g ∷ fs) h.1 in rw next (h.0, rw next at ih)
    | inr last ↦ rw last (less_asymm f.rel_path e.rel_path below, (last, h.1))
  ])
]

pub sort-IsSorted : (es : List ManifestEntry) → IsSorted (sort es)
unfolding sort
sort-IsSorted [] = tt
sort-IsSorted (e ∷ es) = insert-IsSorted e (sort es) (sort-IsSorted es)

insert-perm : (e : ManifestEntry) (es : List ManifestEntry) → Perm (insert e es) (e ∷ es)
unfolding insert
insert-perm e [] = Perm.refl (e ∷ [])
insert-perm e (f ∷ fs) = elim (Bool-cases (less f.rel_path e.rel_path)) [
  | inl below ↦ rw below (Perm.trans (Perm.cons f (insert-perm e fs)) (Perm.swap e f fs))
  | inr above ↦ rw above (Perm.refl (e ∷ f ∷ fs))
]

pub sort-perm : (es : List ManifestEntry) → Perm (sort es) es
unfolding sort
sort-perm [] = Perm.refl []
sort-perm (e ∷ es) = Perm.trans (insert-perm e (sort es)) (Perm.cons e (sort-perm es))
