-- ===== src/Disk/Sweep/Climb.antt =====
-- disk_reserve_sweep.go, keepSet: the climb from DownloadedPath, and its fuel.
use loon_agent.Prelude.{
  ℕ, zero, suc, ◌<◌, ◌≡◌, refl, ◌∙◌, ap, inl, inr, true, false, arith, Bytes, [], ◌∷◌, codes,
  length, equal, equal_iff, Bool-cases,
}
use loon_agent.FilePath.{base, clean, dir}
use loon_agent.FilePath.Shorter.{dir-shorter}
use loon_agent.Disk.Sweep.{
  ClimbEnd, found, not_found, still_climbing, climb, is_family, is_terminal,
}

-- The directory `n` levels above a path.
unfoldable pub up : ℕ → Bytes → Bytes
up zero p = p
up (suc n) p = up n (dir p)

-- The nearest name of a family, looked for upwards from a path; a climb that goes on is no end.
unfoldable pub Ends : Bytes → ClimbEnd → Type 0
Ends p (found name) =
    (n : ℕ) × (name ≡ base (up n p))
    × (is_family name ≡ true)
    × ((k : ℕ) → k < n → is_family (base (up k p)) ≡ false)
Ends p not_found = (k : ℕ) → is_family (base (up k p)) ≡ false
Ends p still_climbing = ⊥

up-fixed : (p : Bytes) (k : ℕ) → dir p ≡ p → up k p ≡ p
unfolding up
up-fixed p zero e = refl
up-fixed p (suc k) e = ap (up k) e ∙ up-fixed p k e

fixed-Ends : (p : Bytes) → dir p ≡ p → is_family (base p) ≡ false → Ends p not_found
unfolding Ends
fixed-Ends p e other k = rw (up-fixed p k e) other

below_next :
    (p : Bytes) (n k : ℕ)
    → is_family (base p) ≡ false
    → ((k : ℕ) → k < n → is_family (base (up k (dir p))) ≡ false)
    → k < suc n
    → is_family (base (up k p)) ≡ false
unfolding up
below_next p n zero other first h = other
below_next p n (suc k) other first h = first k (omega arith)

none_above :
    (p : Bytes)
    → is_family (base p) ≡ false
    → ((k : ℕ) → is_family (base (up k (dir p))) ≡ false)
    → (k : ℕ) → is_family (base (up k p)) ≡ false
unfolding up
none_above p other h zero = other
none_above p other h (suc k) = h k

higher-Ends : (p : Bytes) (c : ClimbEnd) → is_family (base p) ≡ false → Ends (dir p) c → Ends p c
unfolding Ends up
higher-Ends p (found name) other (n, named, family, first) =
    (suc n, named, family, λ k h. below_next p n k other first h)
higher-Ends p not_found other h = none_above p other h
higher-Ends p still_climbing other h = h

dot-Ends : Ends (codes ".") not_found
unfolding dir clean base
dot-Ends = fixed-Ends (codes ".") refl refl

root-Ends : Ends (codes "/") not_found
unfolding dir clean base
root-Ends = fixed-Ends (codes "/") refl refl

empty-Ends : Ends [] not_found
unfolding dir clean base
empty-Ends = higher-Ends [] not_found refl dot-Ends

terminal-Ends : (p : Bytes) → is_terminal p ≡ true → Ends p not_found
terminal-Ends p h = elim (Bool-cases (equal p [])) [
  | inl e ↦ rw ((equal_iff p []).0 e) empty-Ends
  | inr filled ↦ (elim (Bool-cases (equal p (codes "/"))) [
    | inl e ↦ rw ((equal_iff p (codes "/")).0 e) root-Ends
    | inr lower ↦ rw ((equal_iff p (codes ".")).0 (ground arith)) dot-Ends
  ])
]

found-Ends : (p : Bytes) → is_family (base p) ≡ true → Ends p (found (base p))
unfolding Ends up
found-Ends p family = (0, refl, family, λ k h. absurd (omega arith))

-- The climb at the two paths that `dir` does not shorten.
climb-dot : (fuel : ℕ) → climb (suc fuel) (codes ".") ≡ not_found
unfolding climb
climb-dot fuel = refl

climb-root : (fuel : ℕ) → climb (suc fuel) (codes "/") ≡ not_found
unfolding climb
climb-root fuel = refl

-- One round: what is left to show is where it climbs.
step-Ends :
    (fuel : ℕ) (p : Bytes)
    → (is_terminal p ≡ false → Ends (dir p) (climb fuel (dir p)))
    → Ends p (climb (suc fuel) p)
unfolding climb
step-Ends fuel p higher = elim (Bool-cases (is_terminal p)) [
  | inl stop ↦ rw stop (terminal-Ends p stop)
  | inr on ↦ (elim (Bool-cases (is_family (base p))) [
    | inl family ↦ rw (on, family) (found-Ends p family)
    | inr other ↦ (elim (Bool-cases (equal (dir p) p)) [
      | inl same ↦ rw (on, other, same) (fixed-Ends p ((equal_iff (dir p) p).0 same) other)
      | inr new ↦ rw (on, other, new) (higher-Ends p (climb fuel (dir p)) other (higher on))
    ])
  ])
]

filled : (p : Bytes) → is_terminal p ≡ false → 0 < length p
filled [] h = cc
filled (c ∷ p) h = omega arith

-- With more fuel than the path has bytes, as climb_fuel gives, the climb from a path ends: with the
-- nearest name of a family, looking from the path upwards, or, where there is none at any height,
-- without a name.
pub climb-Ends : (fuel : ℕ) (p : Bytes) → length p < fuel → Ends p (climb fuel p)
climb-Ends zero p h = absurd (omega arith)
climb-Ends (suc zero) p h =
    step-Ends 0 p (λ on. let some_byte = filled p on in absurd (omega arith))
climb-Ends (suc (suc f)) p h = step-Ends (suc f) p (λ on. elim (dir-shorter p) [
  | inl less ↦ climb-Ends (suc f) (dir p) (omega arith)
  | inr (inl dot) ↦ rw (dot, climb-dot f) dot-Ends
  | inr (inr root) ↦ rw (root, climb-root f) root-Ends
])
