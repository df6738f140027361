-- ===== src/Offers/Tests.antt =====
-- Runs of the choice of a route and of the staging of local content.
use loon_agent.Prelude.{
  ◌∷◌, List, String, Bytes, Bool, none, contains, ◌≡◌, refl, true, some, [], arith, codes,
}
use loon_agent.FileTree.{Kind, Node, Nodes, walk, walk_node, walk_nodes, child_path}
use loon_agent.Offers.Route.{
  FulfillRoute, OfferSource, RemoteConfig, choose_fulfill_route, Justifies,
  choose_fulfill_route-Justifies,
}
use loon_agent.Offers.Stage.{OfferStageError, wanted_of, offer_visit, stage_local_content}
use loon_agent.Offers.Stage.Exact.{
  IsSelection, stage_local_content-IsSelection, stage_local_content_complete,
}

abbrev scraped : OfferSource
scraped = record {
  local_path = [];
  torrent_url = codes "https://x/1.torrent";
  size_bytes = 5000000000;
}

abbrev capped : RemoteConfig
capped = record { remote_fulfill = true; remote_max_gb = 4 }

route_test : choose_fulfill_route scraped (some capped) ≡ FulfillRoute.route_remote_disabled
unfolding choose_fulfill_route
route_test = refl

choose_fulfill_route-Justifies_test :
    Justifies scraped (some capped) (choose_fulfill_route scraped (some capped))
choose_fulfill_route-Justifies_test =
    choose_fulfill_route-Justifies scraped (some capped) (omega arith) (omega arith)

abbrev episode : String → Node
episode name = Node.file (record { name = codes name; size = 9; kind = Kind.regular })

abbrev folder : Nodes
folder =
    Nodes.cons (episode "1.mkv")
      (Nodes.cons (episode "2.mkv") (Nodes.cons (episode "3.mkv") Nodes.nil))

abbrev picked : List Bytes
picked = codes " 3.mkv" ∷ []

abbrev always : Bytes → Bool
always path = true

stage_local_content-IsSelection_test :
    IsSelection
      (wanted_of (codes "1.mkv" ∷ picked))
      (stage_local_content always
        (codes "1.mkv" ∷ picked)
        (codes "/m/show")
        (some (Node.dir (codes "show") folder))).0
stage_local_content-IsSelection_test =
    stage_local_content-IsSelection always (codes "1.mkv") picked (codes "/m/show") (codes "show")
      folder

staged_fine :
    (stage_local_content always
      (codes "1.mkv" ∷ picked)
      (codes "/m/show")
      (some (Node.dir (codes "show") folder))).1
    ≡ none
unfolding stage_local_content wanted_of offer_visit walk walk_node walk_nodes child_path
staged_fine = refl

wanted_third : contains (wanted_of (codes "1.mkv" ∷ picked)) (codes "3.mkv") ≡ true
unfolding wanted_of
wanted_third = refl

stage_local_content_complete_example :
    contains
      (stage_local_content always
        (codes "1.mkv" ∷ picked)
        (codes "/m/show")
        (some (Node.dir (codes "show") folder))).0
      (codes "3.mkv")
    ≡ true
stage_local_content_complete_example =
    stage_local_content_complete always (codes "1.mkv") picked (codes "/m/show") (codes "show")
      folder (codes "3.mkv") staged_fine wanted_third

drifted_test :
    (stage_local_content always
      (codes "4.mkv" ∷ picked)
      (codes "/m/show")
      (some (Node.dir (codes "show") folder))).1
    ≡ some OfferStageError.drifted
unfolding stage_local_content wanted_of offer_visit walk walk_node walk_nodes child_path
drifted_test = refl
