-- ===== src/Config/RoundTrip.antt =====
-- config/layered.go: loadYml reads back the tier that WriteYml writes.
use loon_agent.Prelude.{
  ◌≡◌, refl, sym, ap, ◌∙◌, inl, inr, Bool, true, false, ◌&&◌, ◌||◌, not, Option, none, some, [],
  ◌∷◌, ◌++◌, any, if◌then◌else◌, arith, Bytes, equal, equal_iff, codes, contains, to_lower,
  trim_space, precedes, Bool-cases,
}
use mathlib.Core.Bool.{true≢false}
use loon_agent.Dict.{Dict, get, put, get-put}
use loon_agent.Config.{
  Layered, env_only_keys, scan_lines, entry_of, add_entry, load_lines, load_yml, merge,
  insert_entry, sorted, line_of, render_entries, banner, with_banner, render, write_yml,
}
use loon_agent.Config.Lines.{is_line, is_short, scan-line, line_of-is_line}
use loon_agent.Config.Quoting.{is_key, is_value, entry_of-line_of}

abbrev has_key : Bytes → Dict Bytes → Bool
has_key k m = any (λ e. equal e.0 k) m

-- No key twice, keys and values that need no escape, and no entry too long for a line.
abbrev pub is_plain_tier : Dict Bytes → Bool
is_plain_tier [] = true
is_plain_tier ((k, v) ∷ m) =
    (is_key k && is_value v && is_short k v) && (not (has_key k m) && is_plain_tier m)

precedes_ne : (a b : Bytes) → precedes a b ≡ true → equal a b ≡ false
precedes_ne [] [] h = cc
precedes_ne [] (y ∷ ys) h = refl
precedes_ne (x ∷ xs) [] h = cc
precedes_ne (x ∷ xs) (y ∷ ys) h = ground (arith, precedes_ne xs ys)

get-insert_entry :
    (k v : Bytes) (m : Dict Bytes) (j : Bytes)
    → get (insert_entry k v m) j ≡ (if equal k j then some v else get m j)
unfolding get insert_entry
get-insert_entry k v [] j = refl
get-insert_entry k v ((i, w) ∷ m) j =
    ground (
      arith,
      get-insert_entry k v m j,
      precedes_ne i k,
      equal_iff i j,
      equal_iff k j,
      equal_iff i k,
    )

get-sorted : (m : Dict Bytes) (j : Bytes) → get (sorted m) j ≡ get m j
unfolding sorted get
get-sorted [] j = refl
get-sorted ((k, v) ∷ m) j =
    get-insert_entry k v (sorted m) j ∙ ap (λ o. if equal k j then some v else o) (get-sorted m j)

has_key-insert :
    (x k v : Bytes) (m : Dict Bytes) → has_key x (insert_entry k v m) ≡ (equal k x || has_key x m)
unfolding insert_entry
has_key-insert x k v [] = refl
has_key-insert x k v ((i, w) ∷ m) = ground (arith, has_key-insert x k v m)

has_key-sorted : (x : Bytes) (m : Dict Bytes) → has_key x (sorted m) ≡ has_key x m
unfolding sorted
has_key-sorted x [] = refl
has_key-sorted x ((k, v) ∷ m) =
    has_key-insert x k v (sorted m) ∙ ap (λ b. equal k x || b) (has_key-sorted x m)

insert-is_plain_tier :
    (k v : Bytes) (m : Dict Bytes)
    → is_plain_tier ((k, v) ∷ m) ≡ true
    → is_plain_tier (insert_entry k v m) ≡ true
unfolding insert_entry
insert-is_plain_tier k v [] h = h
insert-is_plain_tier k v ((i, w) ∷ m) h = elim (Bool-cases (precedes i k)) [
  | inl later ↦ rw later (
      ground (
        arith,
        insert-is_plain_tier k v m,
        has_key-insert i k v m,
        precedes_ne i k later,
        equal_iff i k,
        equal_iff k i,
      ))
  | inr here ↦ rw here h
]

sorted-is_plain_tier : (m : Dict Bytes) → is_plain_tier m ≡ true → is_plain_tier (sorted m) ≡ true
unfolding sorted
sorted-is_plain_tier [] h = refl
sorted-is_plain_tier ((k, v) ∷ m) h =
    insert-is_plain_tier k v (sorted m) (ground (arith, sorted-is_plain_tier m, has_key-sorted k m))

put_all : Dict Bytes → Dict Bytes → Dict Bytes
put_all yml [] = yml
put_all yml ((k, v) ∷ m) = put_all (put yml k v) m

load-skip :
    (line rest : Bytes) (yml : Dict Bytes)
    → is_line line ≡ true
    → entry_of (trim_space line) ≡ none
    → load_lines yml (scan_lines (line ++ (10 ∷ rest))) ≡ load_lines yml (scan_lines rest)
unfolding load_lines
load-skip line rest yml h e =
    ap (load_lines yml) (scan-line line rest h)
    ∙ ap (λ o. load_lines (add_entry o yml) (scan_lines rest)) e

load-render_entries :
    (yml m : Dict Bytes)
    → is_plain_tier m ≡ true
    → load_lines yml (scan_lines (render_entries m)) ≡ put_all yml m
unfolding load_lines render_entries put_all scan_lines
load-render_entries yml [] h = refl
load-render_entries yml ((k, v) ∷ m) h =
    ap (load_lines yml) (
      scan-line (line_of k v) (render_entries m)
        (line_of-is_line k v (ground arith) (ground arith) (ground arith)))
    ∙ (ap (λ o. load_lines (add_entry o yml) (scan_lines (render_entries m)))
          (entry_of-line_of k v (ground arith) (ground arith))
        ∙ load-render_entries (put yml k v) m (ground arith))

load-banner :
    (text : Bytes)
    → load_lines [] (scan_lines (with_banner banner text)) ≡ load_lines [] (scan_lines text)
load-banner text =
    load-skip (codes "# indexer-agent config.yml " ++ (226 ∷ 128 ∷ 148 ∷ codes " edit with care."))
      _ [] refl refl
    ∙ (load-skip (codes "# Writes from the site UI or the local UI overwrite this file in place.") _
          [] refl refl
        ∙ (load-skip
              (codes "# Keys in .env (VPN_*, NNTP_*, SITE_URL, AGENT_TOKEN) are NOT managed here.")
              _ [] refl refl
            ∙ load-skip [] text [] refl refl))

get-absent : (m : Dict Bytes) (j : Bytes) → has_key j m ≡ false → get m j ≡ none
unfolding get
get-absent [] j h = refl
get-absent ((k, v) ∷ m) j h = ground (arith, get-absent m j)

prefer : Option Bytes → Option Bytes → Option Bytes
prefer none other = other
prefer (some v) other = some v

tail_plain :
    (k v : Bytes) (m : Dict Bytes)
    → is_plain_tier ((k, v) ∷ m) ≡ true
    → (has_key k m ≡ false) × (is_plain_tier m ≡ true)
tail_plain k v m h = ground arith

get-put_all :
    (yml m : Dict Bytes) (j : Bytes)
    → is_plain_tier m ≡ true
    → get (put_all yml m) j ≡ prefer (get m j) (get yml j)
unfolding put_all get prefer
get-put_all yml [] j h = refl
get-put_all yml ((k, v) ∷ m) j h =
    let (once, rest) = tail_plain k v m h in
    get-put_all (put yml k v) m j rest
    ∙ (ap (prefer (get m j)) (get-put yml k v j) ∙ (elim (Bool-cases (equal k j)) [
      | inl same ↦ rw same (
          ap (λ o. prefer o (some v))
            (get-absent m j (ap (λ x. has_key x m) (sym ((equal_iff k j).0 same)) ∙ once)))
      | inr other ↦ rw other refl
    ]))

prefer-none : (o : Option Bytes) → prefer o none ≡ o
unfolding prefer
prefer-none none = refl
prefer-none (some v) = refl

load-render :
    (m : Dict Bytes) (j : Bytes)
    → is_plain_tier m ≡ true
    → get (load_yml (some (render m))) j ≡ get m j
unfolding load_yml render get
load-render m j h =
    let plain = sorted-is_plain_tier m h in
    ap (λ t. get t j)
      (load-banner (render_entries (sorted m)) ∙ load-render_entries [] (sorted m) plain)
    ∙ (get-put_all [] (sorted m) j plain ∙ (prefer-none (get (sorted m) j) ∙ get-sorted m j))

-- Where the file can be written, and the tier with the updates has no key twice, only plain keys
-- and values that need no escape, each of them with its key at most 65,531 bytes long, WriteYml writes a file from which loadYml reads that tier back:
-- every key has the same value, and a key that is not in the tier has none.
pub write_yml_lem :
    (l : Layered) (updates : Dict Bytes)
    → l.is_writable ≡ true
    → is_plain_tier (merge l.yml updates) ≡ true
    → (text : Bytes) × (write_yml l updates ≡ some (record l { yml = merge l.yml updates }, text))
      × ((key : Bytes) → get (load_yml (some text)) key ≡ get (merge l.yml updates) key)
unfolding write_yml
write_yml_lem l updates writable plain = (
  render (merge l.yml updates),
  rw writable refl,
  λ key. load-render (merge l.yml updates) key plain,
)

denied_ne :
    (k key : Bytes)
    → contains env_only_keys k ≡ false
    → contains env_only_keys key ≡ true
    → equal k key ≡ false
denied_ne k key allowed denied = elim (Bool-cases (equal k key)) [
  | inl same ↦ absurd (
      true≢false
        (sym denied ∙ (ap (contains env_only_keys) (sym ((equal_iff k key).0 same)) ∙ allowed)))
  | inr other ↦ other
]

-- WriteYml never changes the value of a key that lives in the environment only.
pub get-merge_denied :
    (yml updates : Dict Bytes) (key : Bytes)
    → contains env_only_keys key ≡ true
    → get (merge yml updates) key ≡ get yml key
unfolding merge
get-merge_denied yml [] key h = refl
get-merge_denied yml ((k, v) ∷ updates) key h =
    elim (Bool-cases (contains env_only_keys (to_lower k))) [
      | inl denied ↦ rw denied (get-merge_denied yml updates key h)
      | inr allowed ↦ rw allowed (
          get-merge_denied (put yml (to_lower k) v) updates key h
          ∙ (get-put yml (to_lower k) v key ∙ rw (denied_ne (to_lower k) key allowed h) refl))
    ]
