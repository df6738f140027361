-- ===== src/Storage/Groups.antt =====
-- storage/groups.go: the posting groups, local ones and those that the site pushes. The trigger is
-- that of storage/migrations/005_groups_type_bans_version.sql. Lists are stored as JSON, which
-- gives them back; times are left out.
pub mod Sync
pub mod Edit
pub mod Valid
use loon_agent.Prelude.{
  ℕ, suc, ◌+◌, Bool, true, false, ◌&&◌, ◌||◌, not, Option, none, some, List, [], ◌∷◌, any, filter,
  length, ◌==◌, if◌then◌else◌, Bytes, codes, equal, contains, has_prefix, to_lower, trim_space,
}

pub record Group : Type 0 where
  pub id : ℕ
  pub name : Bytes
  pub kind : Bytes
  pub newsgroups : List Bytes
  pub screenshots : Option ℕ
  pub sample_seconds : Option ℕ
  pub par2_redundancy : Option ℕ
  pub obfuscate : Option Bool
  pub watermark_text : Bytes
  pub banned_extensions : List Bytes
  pub source : Bytes
  pub version : ℕ

pub data GroupError : Type 0 where
  name_required newsgroup_required invalid_source name_taken : GroupError

pub data Checked : Type 0 where
  valid : Group → Checked
  invalid : GroupError → Checked

abbrev pub local : Bytes
local = codes "local"

abbrev pub site : Bytes
site = codes "site"

abbrev pub clean_newsgroups : List Bytes → List Bytes
clean_newsgroups [] = []
clean_newsgroups (g ∷ gs) =
    if equal (trim_space g) [] then clean_newsgroups gs else trim_space g ∷ clean_newsgroups gs

abbrev pub dotted : Bytes → Bytes
dotted e = if has_prefix e (codes ".") then e else b'.' ∷ e

abbrev pub clean_bans : List Bytes → List Bytes
clean_bans [] = []
clean_bans (e ∷ es) =
    let name = trim_space (to_lower e) in
    if equal name [] then clean_bans es else dotted name ∷ clean_bans es

abbrev pub non_empty_or : Bytes → Bytes → Bytes
non_empty_or s default = if equal s [] then default else s

-- validateGroup: the error, or the group with its fields in normal form.
unfoldable pub validate_group : Group → Checked
validate_group g =
    let name = trim_space g.name in
    let newsgroups = clean_newsgroups g.newsgroups in
    let source = non_empty_or g.source local in
    if equal name []
    then invalid name_required
    else if length newsgroups == 0
    then invalid newsgroup_required
    else if not (equal source local) && not (equal source site)
    then invalid invalid_source
    else valid (record g {
      name = name;
      newsgroups = newsgroups;
      kind = non_empty_or (trim_space (to_lower g.kind)) (codes "video");
      banned_extensions = clean_bans g.banned_extensions;
      source = source;
    })

-- The newest row comes first. `next_id` is what AUTOINCREMENT gives next.
pub record GroupTable : Type 0 where
  pub rows : List Group
  pub next_id : ℕ

abbrev pub is_named : Bytes → Group → Bool
is_named name r = equal r.name name

abbrev pub has_key : ℕ → Group → Bool
has_key id r = r.id == id

abbrev pub insert_group : Group → GroupTable → GroupTable
insert_group g t = record { rows = record g { id = t.next_id } ∷ t.rows; next_id = suc t.next_id }

abbrev pub inserted : Checked → GroupTable → GroupTable × Option GroupError
inserted (invalid e) t = (t, some e)
inserted (valid g) t =
    if any (is_named g.name) t.rows
    then (t, some name_taken)
    else (insert_group (record g { version = 1 }) t, none)

-- CreateGroup; the column `version` starts at 1.
unfoldable pub create_group : Group → GroupTable → GroupTable × Option GroupError
unfolding validate_group
create_group g t = inserted (validate_group g) t

-- SELECT id, source ... WHERE name = ?
abbrev pub find_named : Bytes → List Group → Option Group
find_named name [] = none
find_named name (r ∷ rs) = if is_named name r then some r else find_named name rs

-- The trigger: an update that leaves the version alone bumps it.
abbrev pub bumped : ℕ → ℕ → ℕ
bumped old new = if new == old then suc old else new

-- UPDATE groups SET ... of UpsertSiteGroup: neither name nor source.
abbrev pub site_update : Group → Group → Group
site_update g r = record r {
  kind = g.kind;
  newsgroups = g.newsgroups;
  banned_extensions = g.banned_extensions;
  screenshots = g.screenshots;
  sample_seconds = g.sample_seconds;
  par2_redundancy = g.par2_redundancy;
  obfuscate = g.obfuscate;
  watermark_text = g.watermark_text;
  version = bumped r.version g.version;
}

abbrev pub update_row : ℕ → (Group → Group) → List Group → List Group
update_row id f [] = []
update_row id f (r ∷ rs) = (if has_key id r then f r else r) ∷ update_row id f rs

-- The result of a push: the error, or whether it was written.
pub data Pushed : Type 0 where
  upserted skipped : Pushed
  refused : GroupError → Pushed

abbrev pub upsert_over : Group → GroupTable → Option Group → GroupTable × Pushed
upsert_over g t none = (insert_group g t, upserted)
upsert_over g t (some r) =
    if equal r.source local
    then (t, skipped)
    else (record t { rows = update_row r.id (site_update g) t.rows }, upserted)

abbrev pub upsert_checked : Checked → GroupTable → GroupTable × Pushed
upsert_checked (invalid e) t = (t, refused e)
upsert_checked (valid g) t = upsert_over g t (find_named g.name t.rows)

-- UpsertSiteGroup
unfoldable pub upsert_site_group : Group → GroupTable → GroupTable × Pushed
unfolding validate_group
upsert_site_group g t = upsert_checked (validate_group (record g { source = site })) t

abbrev pub is_stale : List Bytes → Group → Bool
is_stale live_names r = equal r.source site && not (contains live_names r.name)

-- ReconcileSiteGroups
unfoldable pub reconcile_site_groups : List Bytes → GroupTable → GroupTable × ℕ
reconcile_site_groups live_names t = (
  record t { rows = filter (λ r. not (is_stale live_names r)) t.rows },
  length (filter (is_stale live_names) t.rows),
)

-- A full sync: each group of the site's catalog is pushed, then the stale ones are removed.
unfoldable pub push_all : List Group → GroupTable → GroupTable
unfolding upsert_site_group
push_all [] t = t
push_all (g ∷ gs) t = push_all gs (upsert_site_group g t).0
