-- ===== src/Storage/Watches/Reach.antt =====
-- storage/watches.go: the tables of watch folders that the pages can bring about.
use loon_agent.Prelude.{
  ℕ, suc, ◌≡◌, refl, ◌∙◌, inl, inr, Bool, true, false, ◌&&◌, not, [], ◌∷◌, any, all, filter,
  all-append, ltb, ◌==◌, if◌then◌else◌, arith, Bytes, equal, trim_space, Bool-cases, subst,
}
use loon_agent.FilePath.{clean, starts_rooted}
use loon_agent.FilePath.Rooted.{clean-no_dot_dot}
use loon_agent.Storage.Groups.{GroupTable}
use loon_agent.Storage.Watches.{
  WatchFolder, WatchTable, WatchError, CheckedPath, valid, invalid, validate_watch, has_id,
  has_path, is_group, refers, Saved, saved, rejected, create_watch, update_watch, delete_watch,
  unassign_group, insert_watch, store_watch,
}
use loon_agent.Storage.Watches.Rows.{
  is_ascending, are_apart, is_plain, ascending-last, apart-last, below_suc, all_mono, set-ids,
  set-is_ascending, set-are_apart, set-plain, set-refers,
}
use loon_agent.Storage.Watches.Removed.{
  all-kept, kept-is_ascending, kept-are_apart, unassign-all, unassign-is_ascending,
  unassign-are_apart, unassign-refers, more-refers,
}

-- The tables of the groups and of the watch folders.
pub record Tables : Type 0 where
  pub groups : GroupTable
  pub watches : WatchTable

-- A call of the pages. Deleting a group also unassigns it from its watch folders; other changes of
-- the groups lose no group.
pub data Step (s : Tables) : Tables → Type 0 where
  creates :
      (w : WatchFolder) (id : ℕ) (t : WatchTable)
      → create_watch s.groups w s.watches ≡ saved id t
      → Step s (record s { watches = t })
  updates :
      (w : WatchFolder) (id : ℕ) (t : WatchTable)
      → update_watch s.groups w s.watches ≡ saved id t
      → Step s (record s { watches = t })
  deletes :
      (id gone : ℕ) (t : WatchTable)
      → delete_watch id s.watches ≡ saved gone t
      → Step s (record s { watches = t })
  deletes_group :
      (id : ℕ)
      → Step s (record {
        groups = record s.groups { rows = filter (λ g. not (is_group id g)) s.groups.rows };
        watches = record s.watches { rows = unassign_group id s.watches.rows };
      })
  changes_groups :
      (g : GroupTable)
      → ((id : ℕ) → any (is_group id) s.groups.rows ≡ true → any (is_group id) g.rows ≡ true)
      → Step s (record s { groups = g })

pub data Reach : Tables → Type 0 where
  fresh :
      (g : GroupTable) → Reach (record { groups = g; watches = record { rows = []; next_id = 1 } })
  next : (s t : Tables) → Reach s → Step s t → Reach t

pub record AreConsistent (s : Tables) : Type 0 where
  pub ascending : is_ascending s.watches.rows ≡ true
  pub below : all (λ w. ltb w.id s.watches.next_id) s.watches.rows ≡ true
  pub apart : are_apart s.watches.rows ≡ true
  pub plain : all (λ w. is_plain w.path) s.watches.rows ≡ true
  pub referring : all (λ w. refers s.groups w.group_id) s.watches.rows ≡ true

clean-starts_rooted : (p : Bytes) → starts_rooted p ≡ true → starts_rooted (clean p) ≡ true
unfolding clean
clean-starts_rooted p h = rw h refl

clean-is_plain : (p : Bytes) → starts_rooted p ≡ true → is_plain (clean p) ≡ true
clean-is_plain p h = rw (clean-starts_rooted p h, clean-no_dot_dot p h) refl

-- What CreateWatch and UpdateWatch store is the path that was checked.
IsPlainIfValid : CheckedPath → Type 0
IsPlainIfValid (valid path) = is_plain path ≡ true
IsPlainIfValid (invalid e) = Unit {0}

validate-IsPlainIfValid : (path : Bytes) → IsPlainIfValid (validate_watch path)
unfolding validate_watch IsPlainIfValid
validate-IsPlainIfValid path = elim (Bool-cases (equal (trim_space path) [])) [
  | inl empty ↦ rw empty tt
  | inr named ↦ rw named (elim (Bool-cases (starts_rooted (trim_space path))) [
    | inl rooted ↦ rw rooted (clean-is_plain (trim_space path) rooted)
    | inr relative ↦ rw relative tt
  ])
]

Saved-inj : {i j : ℕ} {t u : WatchTable} → saved i t ≡ saved j u → t ≡ u
Saved-inj h = cc

passed :
    (b : Bool) (e : WatchError) (s : Saved) (id : ℕ) (u : WatchTable)
    → (if b then rejected e else s) ≡ saved id u
    → (b ≡ false) × (s ≡ saved id u)
passed true e s id u h = (cc, cc)
passed false e s id u h = (refl, h)

inserted-AreConsistent :
    (g : GroupTable) (w : WatchFolder) (t u : WatchTable) (c : CheckedPath) (id : ℕ)
    → IsPlainIfValid c
    → insert_watch g w t c ≡ saved id u
    → AreConsistent (record { groups = g; watches = t })
    → AreConsistent (record { groups = g; watches = u })
unfolding IsPlainIfValid
inserted-AreConsistent g w t u (invalid e) id k h f = cc
inserted-AreConsistent g w t u (valid path) id k h f =
    let (free, h1) = passed (any (has_path path) t.rows) _ _ id u h in
    let (there, h2) = passed (not (refers g w.group_id)) _ _ id u h1 in
    let new : WatchFolder = record w { id = t.next_id; path = path } in
    subst (λ v. AreConsistent (record { groups = g; watches = v })) (Saved-inj h2)
      (record {
        ascending = ascending-last new t.next_id t.rows refl f.below f.ascending;
        below =
            rw (all-append (λ v. ltb v.id (suc t.next_id)) t.rows (new ∷ []))
              (ground (arith, below_suc t.next_id t.rows f.below));
        apart = apart-last new t.rows free f.apart;
        plain =
            rw (all-append (λ v. is_plain v.path) t.rows (new ∷ [])) (ground (arith, f.plain, k));
        referring =
            rw (all-append (λ v. refers g v.group_id) t.rows (new ∷ []))
              (ground (arith, f.referring, there));
      })

stored-AreConsistent :
    (g : GroupTable) (w : WatchFolder) (t u : WatchTable) (c : CheckedPath) (id : ℕ)
    → IsPlainIfValid c
    → store_watch g w t c ≡ saved id u
    → AreConsistent (record { groups = g; watches = t })
    → AreConsistent (record { groups = g; watches = u })
unfolding IsPlainIfValid
stored-AreConsistent g w t u (invalid e) id k h f = cc
stored-AreConsistent g w t u (valid path) id k h f =
    let (_, h1) = passed (not (any (has_id w.id) t.rows)) _ _ id u h in
    let (free, h2) =
      passed (any (λ r. has_path path r && not (has_id w.id r)) t.rows) _ _ id u h1 in
    let (there, h3) = passed (not (refers g w.group_id)) _ _ id u h2 in
    subst (λ v. AreConsistent (record { groups = g; watches = v })) (Saved-inj h3)
      (record {
        ascending = set-is_ascending w path t.rows ∙ f.ascending;
        below = set-ids w path (λ n. ltb n t.next_id) t.rows ∙ f.below;
        apart = set-are_apart w path t.rows f.ascending (ground arith) f.apart;
        plain = set-plain w path t.rows k f.plain;
        referring = set-refers w path g t.rows (ground arith) f.referring;
      })

update-AreConsistent :
    (g : GroupTable) (w : WatchFolder) (t u : WatchTable) (id : ℕ)
    → update_watch g w t ≡ saved id u
    → AreConsistent (record { groups = g; watches = t })
    → AreConsistent (record { groups = g; watches = u })
unfolding update_watch
update-AreConsistent g w t u id h =
    let (_, h1) = passed (w.id == 0) _ _ id u h in
    stored-AreConsistent g w t u (validate_watch w.path) id (validate-IsPlainIfValid w.path) h1

delete-AreConsistent :
    (g : GroupTable) (id gone : ℕ) (t u : WatchTable)
    → delete_watch id t ≡ saved gone u
    → AreConsistent (record { groups = g; watches = t })
    → AreConsistent (record { groups = g; watches = u })
unfolding delete_watch
delete-AreConsistent g id gone t u h f = elim (Bool-cases (any (has_id id) t.rows)) [
  | inl there ↦
      let e = rw there at h in
      subst (λ v. AreConsistent (record { groups = g; watches = v })) (Saved-inj e)
        (record {
          ascending = kept-is_ascending (λ r. not (has_id id r)) t.rows f.ascending;
          below = all-kept (λ r. not (has_id id r)) (λ v. ltb v.id t.next_id) t.rows f.below;
          apart = kept-are_apart (λ r. not (has_id id r)) t.rows f.apart;
          plain = all-kept (λ r. not (has_id id r)) (λ v. is_plain v.path) t.rows f.plain;
          referring =
              all-kept (λ r. not (has_id id r)) (λ v. refers g v.group_id) t.rows f.referring;
        })
  | inr missing ↦ (let e = rw missing at h in cc)
]

Step-AreConsistent : (s t : Tables) → Step s t → AreConsistent s → AreConsistent t
unfolding create_watch
Step-AreConsistent s _ (creates w id t e) f =
    inserted-AreConsistent s.groups w s.watches t (validate_watch w.path) id
      (validate-IsPlainIfValid w.path) e f
Step-AreConsistent s _ (updates w id t e) f = update-AreConsistent s.groups w s.watches t id e f
Step-AreConsistent s _ (deletes id gone t e) f =
    delete-AreConsistent s.groups id gone s.watches t e f
Step-AreConsistent s _ (deletes_group id) f = record {
  ascending = unassign-is_ascending id s.watches.rows ∙ f.ascending;
  below = unassign-all id (λ n _. ltb n s.watches.next_id) s.watches.rows ∙ f.below;
  apart = unassign-are_apart id s.watches.rows ∙ f.apart;
  plain = unassign-all id (λ _ p. is_plain p) s.watches.rows ∙ f.plain;
  referring = unassign-refers id s.groups s.watches.rows f.referring;
}
Step-AreConsistent s _ (changes_groups g more) f = record {
  ascending = f.ascending;
  below = f.below;
  apart = f.apart;
  plain = f.plain;
  referring =
      all_mono (λ v. refers s.groups v.group_id) (λ v. refers g v.group_id) s.watches.rows
        (λ v. more-refers s.groups g v.group_id more) f.referring;
}

-- In every state that the pages can bring about, the ids of the watch folders ascend and are below
-- the next one, no two folders have the same path, every path is absolute and has no "..", and
-- every folder with a group has one that is there.
pub Reach-AreConsistent : (s : Tables) → Reach s → AreConsistent s
Reach-AreConsistent _ (fresh g) = record {
  ascending = refl;
  below = refl;
  apart = refl;
  plain = refl;
  referring = refl;
}
Reach-AreConsistent t (next s _ before step) =
    Step-AreConsistent s t step (Reach-AreConsistent s before)
