-- ===== src/Storage/Watches/Tests.antt =====
-- A run of storage/watches.go on a table without rows.
use loon_agent.Prelude.{◌≡◌, refl, true, none, [], ◌∷◌, codes}
use loon_agent.FilePath.{clean}
use loon_agent.Storage.Groups.{GroupTable}
use loon_agent.Storage.Watches.{WatchFolder, WatchTable, saved, create_watch}
use loon_agent.Storage.Watches.Reach.{fresh, next, creates, AreConsistent, Reach-AreConsistent}

abbrev no_watches : WatchTable
no_watches = record { rows = []; next_id = 1 }

abbrev no_groups : GroupTable
no_groups = record { rows = []; next_id = 1 }

abbrev drop_folder : WatchFolder
drop_folder = record { id = 0; path = codes " /data/x/../watch/ "; group_id = none; enabled = true }

abbrev one_watch : WatchTable
one_watch = record {
  rows = record drop_folder { id = 1; path = codes "/data/watch" } ∷ [];
  next_id = 2;
}

create_watch_test : create_watch no_groups drop_folder no_watches ≡ saved 1 one_watch
unfolding create_watch clean
create_watch_test = refl

Reach-AreConsistent_example : AreConsistent (record { groups = no_groups; watches = one_watch })
Reach-AreConsistent_example =
    Reach-AreConsistent (record { groups = no_groups; watches = one_watch })
      (next _ _ (fresh no_groups) (creates drop_folder 1 one_watch create_watch_test))
