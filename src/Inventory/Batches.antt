-- ===== src/Inventory/Batches.antt =====
-- services/inventory_scan.go: the batches of BatchInventory.
use loon_agent.Prelude.{
  ℕ, zero, suc, ◌≤◌, ◌<◌, ◌≡◌, refl, ap, ◌∙◌, Bool, true, ◌&&◌, List, [], ◌∷◌, ◌++◌, arith, length,
  all, ltb, leb, take, drop, length-take_le, length-drop, take-drop, take-pos,
}
use loon_agent.Inventory.{batches_from, at_least_one, batch_inventory}

at_least_one_pos : (n : ℕ) → 0 < at_least_one n
at_least_one_pos zero = omega arith
at_least_one_pos (suc n) = omega arith

module _ {ℓ} {A : Type ℓ} where
  abbrev pub flattened : List (List A) → List A
  flattened [] = []
  flattened (xs ∷ xss) = xs ++ flattened xss

  abbrev pub is_batch : ℕ → List A → Bool
  is_batch size batch = ltb 0 (length batch) && leb (length batch) size

  take-is_batch :
      (size : ℕ) (x : A) (xs : List A) → 0 < size → is_batch size (take size (x ∷ xs)) ≡ true
  take-is_batch size x xs h =
      let (y, ys, e) = take-pos size (x ∷ xs) h (omega arith) in
      ground (arith, length-take_le size (x ∷ xs), ap length e)

  batches_from_lem :
      (fuel size : ℕ) (files : List A)
      → 0 < size
      → length files ≤ fuel
      → (flattened (batches_from fuel size files) ≡ files)
        × (all (is_batch size) (batches_from fuel size files) ≡ true)
  unfolding batches_from
  batches_from_lem zero size [] pos le = (refl, refl)
  batches_from_lem zero size (x ∷ xs) pos le = absurd (omega arith)
  batches_from_lem (suc fuel) size [] pos le = (refl, refl)
  batches_from_lem (suc fuel) size (x ∷ xs) pos le =
      let (flat, sized) =
        batches_from_lem fuel size (drop size (x ∷ xs)) pos
          (omega (arith, length-drop size (x ∷ xs))) in
      (
        ap (λ ys. take size (x ∷ xs) ++ ys) flat ∙ take-drop size (x ∷ xs),
        ground (arith, take-is_batch size x xs pos),
      )

  -- The batches joined are the list, in its order, and each has at least one entry and at most as
  -- many as the size asks for, or one where the size is 0.
  pub batch_inventory_lem :
      (files : List A) (size : ℕ)
      → (flattened (batch_inventory files size) ≡ files)
        × (all (is_batch (at_least_one size)) (batch_inventory files size) ≡ true)
  unfolding batch_inventory
  batch_inventory_lem files size =
      batches_from_lem (length files) (at_least_one size) files (at_least_one_pos size)
        (omega arith)
