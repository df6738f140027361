-- ===== src/Storage/Watches/Removed.antt =====
-- storage/watches.go: what the removal of a row, or of a group, keeps of a table.
use loon_agent.Prelude.{
  ℕ, ◌≡◌, refl, ap, inl, inr, Bool, true, false, ◌&&◌, ◌||◌, not, Option, none, some, List, [], ◌∷◌,
  any, all, filter, ltb, ◌==◌, arith, Bytes, Bool-cases,
}
use loon_agent.Storage.Groups.{Group, GroupTable}
use loon_agent.Storage.Watches.{WatchFolder, has_path, is_group, refers, unassigned, unassign_group}
use loon_agent.Storage.Watches.Rows.{is_ascending, are_apart}

module _ (q : WatchFolder → Bool) where
  pub all-kept :
      (p : WatchFolder → Bool) (ws : List WatchFolder)
      → all p ws ≡ true
      → all p (filter q ws) ≡ true
  all-kept p [] h = refl
  all-kept p (v ∷ ws) h = elim (Bool-cases (q v)) [
    | inl kept ↦ rw kept (ground (arith, all-kept p ws))
    | inr dropped ↦ rw dropped (all-kept p ws (ground arith))
  ]

  none-kept :
      (p : WatchFolder → Bool) (ws : List WatchFolder)
      → any p ws ≡ false
      → any p (filter q ws) ≡ false
  none-kept p [] h = refl
  none-kept p (v ∷ ws) h = elim (Bool-cases (q v)) [
    | inl kept ↦ rw kept (ground (arith, none-kept p ws))
    | inr dropped ↦ rw dropped (none-kept p ws (ground arith))
  ]

  pub kept-is_ascending :
      (ws : List WatchFolder) → is_ascending ws ≡ true → is_ascending (filter q ws) ≡ true
  kept-is_ascending [] h = refl
  kept-is_ascending (v ∷ ws) h = elim (Bool-cases (q v)) [
    | inl kept ↦ rw kept (
        rw (all-kept (λ u. ltb v.id u.id) ws (ground arith), kept-is_ascending ws (ground arith))
          refl)
    | inr dropped ↦ rw dropped (kept-is_ascending ws (ground arith))
  ]

  pub kept-are_apart :
      (ws : List WatchFolder) → are_apart ws ≡ true → are_apart (filter q ws) ≡ true
  kept-are_apart [] h = refl
  kept-are_apart (v ∷ ws) h = elim (Bool-cases (q v)) [
    | inl kept ↦
        rw kept (
          rw (none-kept (has_path v.path) ws (ground arith), kept-are_apart ws (ground arith)) refl)
    | inr dropped ↦ rw dropped (kept-are_apart ws (ground arith))
  ]

module _ (id : ℕ) where
  pub unassign-all :
      (p : ℕ → Bytes → Bool) (ws : List WatchFolder)
      → all (λ v. p v.id v.path) (unassign_group id ws) ≡ all (λ v. p v.id v.path) ws
  unfolding unassign_group
  unassign-all p [] = refl
  unassign-all p (v ∷ ws) = ap (λ b. p v.id v.path && b) (unassign-all p ws)

  unassign-any :
      (p : Bytes) (ws : List WatchFolder)
      → any (has_path p) (unassign_group id ws) ≡ any (has_path p) ws
  unfolding unassign_group
  unassign-any p [] = refl
  unassign-any p (v ∷ ws) = ap (λ b. has_path p v || b) (unassign-any p ws)

  pub unassign-is_ascending :
      (ws : List WatchFolder) → is_ascending (unassign_group id ws) ≡ is_ascending ws
  unfolding unassign_group
  unassign-is_ascending [] = refl
  unassign-is_ascending (v ∷ ws) =
      rw (unassign-all (λ n _. ltb v.id n) ws, unassign-is_ascending ws) refl

  pub unassign-are_apart : (ws : List WatchFolder) → are_apart (unassign_group id ws) ≡ are_apart ws
  unfolding unassign_group
  unassign-are_apart [] = refl
  unassign-are_apart (v ∷ ws) = rw (unassign-any v.path ws, unassign-are_apart ws) refl

  other_group :
      (k : ℕ) (gs : List Group)
      → (k == id) ≡ false
      → any (is_group k) gs ≡ true
      → any (is_group k) (filter (λ g. not (is_group id g)) gs) ≡ true
  other_group k [] n h = h
  other_group k (g ∷ gs) n h = elim (Bool-cases (is_group id g)) [
    | inl gone ↦ rw gone (ground (arith, other_group k gs n))
    | inr kept ↦ rw kept (ground (arith, other_group k gs n))
  ]

  abbrev without : GroupTable → GroupTable
  without g = record g { rows = filter (λ r. not (is_group id r)) g.rows }

  unassigned-refers :
      (g : GroupTable) (o : Option ℕ)
      → refers g o ≡ true
      → refers (without g) (unassigned id o) ≡ true
  unassigned-refers g none h = refl
  unassigned-refers g (some k) h = elim (Bool-cases (k == id)) [
    | inl same ↦ rw same refl
    | inr other ↦ rw other (other_group k g.rows other h)
  ]

  pub unassign-refers :
      (g : GroupTable) (ws : List WatchFolder)
      → all (λ v. refers g v.group_id) ws ≡ true
      → all (λ v. refers (without g) v.group_id) (unassign_group id ws) ≡ true
  unfolding unassign_group
  unassign-refers g [] h = refl
  unassign-refers g (v ∷ ws) h =
      rw (unassigned-refers g v.group_id (ground arith), unassign-refers g ws (ground arith)) refl

pub more-refers :
    (g h : GroupTable) (o : Option ℕ)
    → ((id : ℕ) → any (is_group id) g.rows ≡ true → any (is_group id) h.rows ≡ true)
    → refers g o ≡ true
    → refers h o ≡ true
more-refers g h none f e = refl
more-refers g h (some id) f e = f id e
