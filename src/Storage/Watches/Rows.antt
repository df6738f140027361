-- ===== src/Storage/Watches/Rows.antt =====
-- storage/watches.go: what a new row and the change of a row keep of a table.
use loon_agent.Prelude.{
  ℕ, suc, ◌≡◌, refl, sym, ap, ◌∙◌, inl, inr, Bool, true, false, ◌&&◌, not, List, [], ◌∷◌, ◌++◌, any,
  all, any-append, all-append, ltb, ==_iff, arith, Bytes, equal, equal_iff, contains, Bool-cases,
  if_both,
}
use loon_agent.FilePath.{starts_rooted, split_slash, dot_dot}
use loon_agent.Storage.Groups.{GroupTable}
use loon_agent.Storage.Watches.{WatchFolder, has_id, has_path, refers, set_watch, set_watches}

abbrev pub is_ascending : List WatchFolder → Bool
is_ascending [] = true
is_ascending (w ∷ ws) = all (λ v. ltb w.id v.id) ws && is_ascending ws

abbrev pub are_apart : List WatchFolder → Bool
are_apart [] = true
are_apart (w ∷ ws) = not (any (has_path w.path) ws) && are_apart ws

-- The path is absolute and has no element "..".
abbrev pub is_plain : Bytes → Bool
is_plain path = starts_rooted path && not (contains (split_slash path) dot_dot)

module _ (w : WatchFolder) where
  pub ascending-last :
      (n : ℕ) (ws : List WatchFolder)
      → w.id ≡ n
      → all (λ v. ltb v.id n) ws ≡ true
      → is_ascending ws ≡ true
      → is_ascending (ws ++ (w ∷ [])) ≡ true
  ascending-last n [] e h a = refl
  ascending-last n (v ∷ ws) e h a =
      ground (arith, ascending-last n ws e, all-append (λ u. ltb v.id u.id) ws (w ∷ []))

  pub apart-last :
      (ws : List WatchFolder)
      → any (has_path w.path) ws ≡ false
      → are_apart ws ≡ true
      → are_apart (ws ++ (w ∷ [])) ≡ true
  apart-last [] h a = refl
  apart-last (v ∷ ws) h a = ground (
    arith,
    apart-last ws,
    any-append (has_path v.path) ws (w ∷ []),
    equal_iff w.path v.path,
    equal_iff v.path w.path,
  )

pub below_suc :
    (n : ℕ) (ws : List WatchFolder)
    → all (λ v. ltb v.id n) ws ≡ true
    → all (λ v. ltb v.id (suc n)) ws ≡ true
below_suc n [] h = refl
below_suc n (v ∷ ws) h = ground (arith, below_suc n ws)

pub all_mono :
    (p q : WatchFolder → Bool) (ws : List WatchFolder)
    → ((v : WatchFolder) → p v ≡ true → q v ≡ true)
    → all p ws ≡ true
    → all q ws ≡ true
all_mono p q [] f h = refl
all_mono p q (v ∷ ws) f h = rw (f v (ground arith), all_mono p q ws f (ground arith)) refl

module _ (w : WatchFolder) (path : Bytes) where
  abbrev set_all : List WatchFolder → List WatchFolder
  set_all = set_watches w path

  pub set-ids :
      (p : ℕ → Bool) (ws : List WatchFolder) → all (λ v. p v.id) (set_all ws) ≡ all (λ v. p v.id) ws
  set-ids p [] = refl
  set-ids p (v ∷ ws) =
      ap (λ b. b && all (λ u. p u.id) (set_all ws))
        (if_both (has_id w.id v) (λ u. p u.id ≡ p v.id) _ v refl refl)
      ∙ ap (λ b. p v.id && b) (set-ids p ws)

  set-id : (v : WatchFolder) → (set_watch w path v).id ≡ v.id
  set-id v = if_both (has_id w.id v) (λ u. u.id ≡ v.id) _ v refl refl

  pub set-is_ascending : (ws : List WatchFolder) → is_ascending (set_all ws) ≡ is_ascending ws
  set-is_ascending [] = refl
  set-is_ascending (v ∷ ws) =
      ap (λ n. all (λ u. ltb n u.id) (set_all ws) && is_ascending (set_all ws)) (set-id v)
      ∙ (ap (λ b. b && is_ascending (set_all ws)) (set-ids (λ n. ltb v.id n) ws)
          ∙ ap (λ b. all (λ u. ltb v.id u.id) ws && b) (set-is_ascending ws))

  -- The other rows do not have the new path.
  abbrev is_free : List WatchFolder → Bool
  is_free ws = not (any (λ r. has_path path r && not (has_id w.id r)) ws)

  set-none : (ws : List WatchFolder) → all (λ v. ltb w.id v.id) ws ≡ true → set_all ws ≡ ws
  set-none [] h = refl
  set-none (v ∷ ws) h =
      let miss : has_id w.id v ≡ false = ground arith in
      rw miss (ap (λ r. v ∷ r) (set-none ws (ground arith)))

  free-none :
      (ws : List WatchFolder)
      → all (λ v. ltb w.id v.id) ws ≡ true
      → is_free ws ≡ true
      → any (has_path path) ws ≡ false
  free-none [] h f = refl
  free-none (v ∷ ws) h f = ground (arith, free-none ws)

  set-apart :
      (p : Bytes) (ws : List WatchFolder)
      → equal path p ≡ false
      → any (has_path p) ws ≡ false
      → any (has_path p) (set_all ws) ≡ false
  set-apart p [] e h = refl
  set-apart p (v ∷ ws) e h = elim (Bool-cases (has_id w.id v)) [
    | inl hit ↦ rw hit (ground (arith, set-apart p ws e))
    | inr miss ↦ rw miss (ground (arith, set-apart p ws e))
  ]

  pub set-are_apart :
      (ws : List WatchFolder)
      → is_ascending ws ≡ true
      → is_free ws ≡ true
      → are_apart ws ≡ true
      → are_apart (set_all ws) ≡ true
  set-are_apart [] a f h = refl
  set-are_apart (v ∷ ws) a f h = elim (Bool-cases (has_id w.id v)) [
    | inl hit ↦
        let here : all (λ u. ltb v.id u.id) ws ≡ true = ground arith in
        let later : all (λ u. ltb w.id u.id) ws ≡ true =
          ap (λ n. all (λ u. ltb n u.id) ws) (sym ((==_iff v.id w.id).0 hit)) ∙ here in
        rw (hit, set-none ws later) (ground (arith, free-none ws later))
    | inr miss ↦
        let apart_path : equal path v.path ≡ false =
          ground (arith, equal_iff path v.path, equal_iff v.path path) in
        rw miss (ground (arith, set-apart v.path ws apart_path, set-are_apart ws))
  ]

  pub set-plain :
      (ws : List WatchFolder)
      → is_plain path ≡ true
      → all (λ v. is_plain v.path) ws ≡ true
      → all (λ v. is_plain v.path) (set_all ws) ≡ true
  set-plain [] k h = refl
  set-plain (v ∷ ws) k h = elim (Bool-cases (has_id w.id v)) [
    | inl hit ↦ rw (hit, k) (set-plain ws k (ground arith))
    | inr miss ↦ rw miss (ground (arith, set-plain ws k))
  ]

  pub set-refers :
      (g : GroupTable) (ws : List WatchFolder)
      → refers g w.group_id ≡ true
      → all (λ v. refers g v.group_id) ws ≡ true
      → all (λ v. refers g v.group_id) (set_all ws) ≡ true
  set-refers g [] k h = refl
  set-refers g (v ∷ ws) k h = elim (Bool-cases (has_id w.id v)) [
    | inl hit ↦ rw hit (rw k (set-refers g ws k (ground arith)))
    | inr miss ↦ rw miss (ground (arith, set-refers g ws k))
  ]
