-- ===== src/Collection/Running.antt =====
-- services/collection_scanner.go: the flag that keeps a second scan out, under all interleavings.
use loon_agent.Prelude.{
  ℕ, suc, ◌≤◌, ◌≡◌, refl, sym, ap, ◌∙◌, inl, inr, Bool, true, false, Option, none, some, ltb, arith,
  Bool-cases, none_ne_some,
}
use loon_agent.Collection.Scanner.{CollectionScanner, begin_scan, end_scan}

-- The scanner, and how many calls of Scan are between their two critical sections.
pub record Running : Type 0 where
  pub scanner : CollectionScanner
  pub scans : ℕ

-- A critical section of one of the goroutines. A scan that is refused ends there. The sections of
-- the body of a scan and of the page's calls leave the flag alone, whatever else they change.
pub data Section (s : Running) : Running → Type 0 where
  begins :
      (t : CollectionScanner)
      → begin_scan s.scanner ≡ some t
      → Section s (record { scanner = t; scans = suc s.scans })
  refused : begin_scan s.scanner ≡ none → Section s s
  ends : (n : ℕ) → s.scans ≡ suc n → Section s (record { scanner = end_scan s.scanner; scans = n })
  works :
      (t : CollectionScanner)
      → t.scanning ≡ s.scanner.scanning
      → Section s (record { scanner = t; scans = s.scans })

pub data Reach : Running → Type 0 where
  start :
      (cs : CollectionScanner) → cs.scanning ≡ false → Reach (record { scanner = cs; scans = 0 })
  next : (s t : Running) → Reach s → Section s t → Reach t

record IsExclusive (s : Running) : Type 0 where
  at_most_one : s.scans ≤ 1
  flagged : s.scanner.scanning ≡ ltb 0 s.scans

scanning_of : Option CollectionScanner → Bool
scanning_of none = false
scanning_of (some t) = t.scanning

begin-flags :
    (cs t : CollectionScanner)
    → begin_scan cs ≡ some t
    → (cs.scanning ≡ false) × (t.scanning ≡ true)
unfolding begin_scan scanning_of
begin-flags cs t e = elim (Bool-cases cs.scanning) [
  | inl busy ↦ absurd (none_ne_some (sym (rw busy refl) ∙ e))
  | inr idle ↦ (idle, ap scanning_of (sym e) ∙ (rw idle refl))
]

Section-IsExclusive : (s t : Running) → Section s t → IsExclusive s → IsExclusive t
unfolding end_scan
Section-IsExclusive s _ (begins t e) h =
    let (idle, busy) = begin-flags s.scanner t e in
    let none_yet : s.scans ≡ 0 = ground (arith, h.flagged, h.at_most_one) in
    record { at_most_one = omega arith; flagged = ground arith }
Section-IsExclusive s _ (refused e) h = h
Section-IsExclusive s _ (ends n e) h =
    let last : n ≡ 0 = omega (arith, h.at_most_one) in
    record { at_most_one = omega arith; flagged = ground arith }
Section-IsExclusive s _ (works t e) h = record {
  at_most_one = h.at_most_one;
  flagged = e ∙ h.flagged;
}

Reach-IsExclusive : (s : Running) → Reach s → IsExclusive s
Reach-IsExclusive _ (start cs e) = record { at_most_one = omega arith; flagged = e }
Reach-IsExclusive t (next s _ before step) =
    Section-IsExclusive s t step (Reach-IsExclusive s before)

-- Under every interleaving of the critical sections at most one scan is at work, and the flag is
-- set exactly while one is.
pub Reach-one_scan : (s : Running) → Reach s → (s.scans ≤ 1) × (s.scanner.scanning ≡ ltb 0 s.scans)
Reach-one_scan s r = let h = Reach-IsExclusive s r in (h.at_most_one, h.flagged)
