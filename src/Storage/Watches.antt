-- ===== src/Storage/Watches.antt =====
-- storage/watches.go and its table, storage/migrations/002_watch_folders.sql: the watch folders.
-- Times, which are only shown, are left out.
pub mod Rows
pub mod Removed
pub mod Reach
mod Tests
use loon_agent.Prelude.{
  ℕ, suc, Bool, true, false, ◌&&◌, not, Option, none, some, List, [], ◌∷◌, ◌++◌, any, filter, find?,
  ltb, ◌==◌, if◌then◌else◌, Bytes, equal, trim_space, precedes,
}
use loon_agent.FilePath.{clean, starts_rooted}
use loon_agent.Storage.Groups.{Group, GroupTable}

-- A row. The name of the group is only joined to it when it is listed.
pub record WatchFolder : Type 0 where
  pub id : ℕ
  pub path : Bytes
  pub group_id : Option ℕ
  pub enabled : Bool

-- `next_id` is what AUTOINCREMENT gives next; a new row stands at the end.
pub record WatchTable : Type 0 where
  pub rows : List WatchFolder
  pub next_id : ℕ

pub data WatchError : Type 0 where
  path_required path_relative id_required watch_not_found constraint_failed : WatchError

pub data CheckedPath : Type 0 where
  valid : Bytes → CheckedPath
  invalid : WatchError → CheckedPath

unfoldable pub validate_watch : Bytes → CheckedPath
validate_watch path =
    let trimmed = trim_space path in
    if equal trimmed []
    then invalid path_required
    else if not (starts_rooted trimmed)
    then invalid path_relative
    else valid (clean trimmed)

abbrev pub has_id : ℕ → WatchFolder → Bool
has_id id w = w.id == id

abbrev pub has_path : Bytes → WatchFolder → Bool
has_path path w = equal w.path path

abbrev pub is_group : ℕ → Group → Bool
is_group id g = g.id == id

-- REFERENCES groups(id); NULL refers to none.
abbrev pub refers : GroupTable → Option ℕ → Bool
refers groups none = true
refers groups (some id) = any (is_group id) groups.rows

pub data Saved : Type 0 where
  saved : ℕ → WatchTable → Saved
  rejected : WatchError → Saved

abbrev insert_watch : GroupTable → WatchFolder → WatchTable → CheckedPath → Saved
insert_watch groups w t (invalid e) = rejected e
insert_watch groups w t (valid path) =
    if any (has_path path) t.rows
    then rejected constraint_failed
    else if not (refers groups w.group_id)
    then rejected constraint_failed
    else saved t.next_id (record {
      rows = t.rows ++ (record w { id = t.next_id; path = path } ∷ []);
      next_id = suc t.next_id;
    })

unfoldable pub create_watch : GroupTable → WatchFolder → WatchTable → Saved
unfolding validate_watch
create_watch groups w t = insert_watch groups w t (validate_watch w.path)

abbrev pub set_watch : WatchFolder → Bytes → WatchFolder → WatchFolder
set_watch w path r =
    if has_id w.id r
    then record r { path = path; group_id = w.group_id; enabled = w.enabled }
    else r

abbrev pub set_watches : WatchFolder → Bytes → List WatchFolder → List WatchFolder
set_watches w path [] = []
set_watches w path (r ∷ rs) = set_watch w path r ∷ set_watches w path rs

-- The constraints are those of the rows that the statement changes.
abbrev store_watch : GroupTable → WatchFolder → WatchTable → CheckedPath → Saved
store_watch groups w t (invalid e) = rejected e
store_watch groups w t (valid path) =
    if not (any (has_id w.id) t.rows)
    then rejected watch_not_found
    else if any (λ r. has_path path r && not (has_id w.id r)) t.rows
    then rejected constraint_failed
    else if not (refers groups w.group_id)
    then rejected constraint_failed
    else saved w.id (record t { rows = set_watches w path t.rows })

unfoldable pub update_watch : GroupTable → WatchFolder → WatchTable → Saved
unfolding validate_watch
update_watch groups w t =
    if w.id == 0 then rejected id_required else store_watch groups w t (validate_watch w.path)

unfoldable pub delete_watch : ℕ → WatchTable → Saved
delete_watch id t =
    if any (has_id id) t.rows
    then saved id (record t { rows = filter (λ r. not (has_id id r)) t.rows })
    else rejected watch_not_found

-- ON DELETE SET NULL, when the group is deleted.
abbrev unassigned : ℕ → Option ℕ → Option ℕ
unassigned id none = none
unassigned id (some g) = if g == id then none else some g

unfoldable pub unassign_group : ℕ → List WatchFolder → List WatchFolder
unassign_group id [] = []
unassign_group id (w ∷ ws) = record w { group_id = unassigned id w.group_id } ∷ unassign_group id ws

-- A row with the name of its group.
pub record ListedWatch : Type 0 where
  pub watch : WatchFolder
  pub group_name : Bytes

abbrev group_of : GroupTable → Option ℕ → Option Group
group_of groups none = none
group_of groups (some id) = find? (is_group id) groups.rows

abbrev name_or_empty : Option Group → Bytes
name_or_empty none = []
name_or_empty (some g) = g.name

abbrev insert_path : ListedWatch → List ListedWatch → List ListedWatch
insert_path w [] = w ∷ []
insert_path w (v ∷ vs) =
    let rest = insert_path w vs in
    if precedes v.watch.path w.watch.path then v ∷ rest else w ∷ v ∷ vs

abbrev joined : GroupTable → List WatchFolder → List ListedWatch
joined groups [] = []
joined groups (w ∷ ws) =
    insert_path (record { watch = w; group_name = name_or_empty (group_of groups w.group_id) })
      (joined groups ws)

-- LEFT JOIN ... ORDER BY path
unfoldable pub list_watches : GroupTable → WatchTable → List ListedWatch
list_watches groups t = joined groups t.rows

abbrev active_row : WatchFolder → Option Group → List ListedWatch → List ListedWatch
active_row w none rest = rest
active_row w (some g) rest =
    if w.enabled then record { watch = w; group_name = g.name } ∷ rest else rest

abbrev active_rows : GroupTable → List WatchFolder → List ListedWatch
active_rows groups [] = []
active_rows groups (w ∷ ws) = active_row w (group_of groups w.group_id) (active_rows groups ws)

-- JOIN ... WHERE enabled = 1 ORDER BY id; the rows stand in the order of their ids.
unfoldable pub list_active_watches : GroupTable → WatchTable → List ListedWatch
list_active_watches groups t = active_rows groups t.rows
