-- ===== src/Disk/Reserve/Interleaving.antt =====
-- services/disk_reserve_sweep.go: calls of ReserveDisk and ReleaseDisk on several goroutines. The
-- mutex covers the map alone, so between the two parts of a call others may run.
use loon_agent.Prelude.{
  ℕ, ◌+◌, ◌%◌, ◌<◌, ◌≡◌, refl, ap, Option, none, some, List, [], ◌∷◌, ◌++◌, arith, Bytes, add64,
  word, sum_by, sum_by-append,
}
use loon_agent.Dict.{Dict, empty}
use loon_agent.Disk.Reserve.{claim, disclaim}
use loon_agent.Disk.Reserve.Ledger.{
  total, IsMap, get-lt-word, put-IsMap, total-put, remove-IsMap, total-remove,
}

-- `pending` holds what the calls between their two parts have yet to add.
pub record Machine : Type 0 where
  pub counter : ℕ
  pub by_job : Dict ℕ
  pub pending : List ℕ

abbrev pub start : Machine
start = record { counter = 0; by_job = empty; pending = [] }

abbrev pub pushed : Option ℕ → List ℕ → List ℕ
pushed none ds = ds
pushed (some d) ds = d ∷ ds

module _ (scaled : ℕ → ℕ) where
  -- The locked part of a call, or the atomic addition of any call that waits for it.
  pub data Step (s : Machine) : Machine → Type 0 where
    claims :
        (job : Bytes) (torrent_bytes : ℕ)
        → Step s (record s {
          by_job = (claim s.by_job job (scaled torrent_bytes)).0;
          pending = (claim s.by_job job (scaled torrent_bytes)).1 ∷ s.pending;
        })
    disclaims :
        (job : Bytes)
        → Step s (record s {
          by_job = (disclaim s.by_job job).0;
          pending = pushed (disclaim s.by_job job).1 s.pending;
        })
    settles :
        (before after : List ℕ) (delta : ℕ)
        → s.pending ≡ before ++ (delta ∷ after)
        → Step s (record s { counter = add64 s.counter delta; pending = before ++ after })

  pub data Reach (s : Machine) : Machine → Type 0 where
    here : Reach s s
    next : {t u : Machine} → Reach s t → Step t u → Reach s u

  abbrev sum : List ℕ → ℕ
  sum = sum_by (λ d. d)

  record Inv (s : Machine) : Type 0 where
    is_map : IsMap s.by_job
    is_word : s.counter < word
    owed : (s.counter + sum s.pending) % word ≡ total s.by_job % word

  module _ (fits : (n : ℕ) → scaled n < word) where
    Step-Inv : {s t : Machine} → Step s t → Inv s → Inv t
    unfolding claim disclaim
    Step-Inv {s} (claims job torrent_bytes) h = record {
      is_map = put-IsMap s.by_job job (scaled torrent_bytes) (fits torrent_bytes) h.is_map;
      is_word = h.is_word;
      owed = omega (
        arith,
        h.owed,
        fits torrent_bytes,
        total-put s.by_job job (scaled torrent_bytes),
        get-lt-word s.by_job job h.is_map,
      );
    }
    Step-Inv {s} (disclaims job) h = ground (
      arith,
      remove-IsMap s.by_job job,
      total-remove s.by_job job,
      get-lt-word s.by_job job h.is_map,
    )
    Step-Inv {s} (settles before after delta e) h = record {
      is_map = h.is_map;
      is_word = omega arith;
      owed = omega (
        arith,
        h.owed,
        ap sum e,
        sum_by-append (λ d. d) before (delta ∷ after),
        sum_by-append (λ d. d) before after,
      );
    }

    Reach-Inv : {s : Machine} → Reach start s → Inv s
    Reach-Inv here = record { is_map = tt; is_word = omega arith; owed = refl }
    Reach-Inv (next r st) = Step-Inv st (Reach-Inv r)

    -- Where scaled sizes fit 64 bits: however the parts of the calls mix from an empty start, when
    -- no call is between its parts the counter is the sum of the live reservations, as an int64.
    pub quiescent_counter :
        {s : Machine} → Reach start s → s.pending ≡ [] → s.counter ≡ total s.by_job % word
    quiescent_counter {s} r e = omega (arith, (Reach-Inv r).owed, (Reach-Inv r).is_word, ap sum e)
