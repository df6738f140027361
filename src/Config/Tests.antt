-- ===== src/Config/Tests.antt =====
-- Runs of the layered configuration.
use loon_agent.Prelude.{◌≡◌, refl, true, some, [], ◌∷◌, Bytes, codes}
use loon_agent.Dict.{Dict, get, put}
use loon_agent.Config.{
  Layered, scan_lines, split_colon, load_lines, load_yml, effective, apply_web, merge, insert_entry,
  render, write_yml,
}
use loon_agent.Config.RoundTrip.{write_yml_lem, get-merge_denied}

abbrev layers : Layered
layers = record {
  yml = (codes "torrent_port", codes "6881") ∷ [];
  env = (codes "torrent_port", codes "7000") ∷ (codes "cpu_max_percent", []) ∷ [];
  web = [];
  is_writable = true;
}

abbrev updates : Dict Bytes
updates = (codes "Local_UI_Bind", codes "0.0.0.0:80") ∷ (codes "NNTP_PASS", codes "x") ∷ []

merge_test :
    merge layers.yml updates
    ≡ (codes "torrent_port", codes "6881") ∷ (codes "local_ui_bind", codes "0.0.0.0:80") ∷ []
unfolding merge put
merge_test = refl

write_yml_lem_example :
    (text : Bytes) × (write_yml layers updates
      ≡ some (record layers { yml = merge layers.yml updates }, text))
    × ((key : Bytes) → get (load_yml (some text)) key ≡ get (merge layers.yml updates) key)
unfolding merge put
write_yml_lem_example = write_yml_lem layers updates refl refl

get-merge_denied_test :
    get (merge layers.yml updates) (codes "nntp_pass") ≡ get layers.yml (codes "nntp_pass")
get-merge_denied_test = get-merge_denied layers.yml updates (codes "nntp_pass") refl

-- The web wins over the environment, which wins over the file.
web_test :
    effective (apply_web layers ((codes "TORRENT_PORT", codes "9") ∷ [])) (codes "torrent_port")
    ≡ codes "9"
unfolding effective apply_web get put
web_test = refl

env_test : effective layers (codes "torrent_port") ≡ codes "7000"
unfolding effective get
env_test = refl

-- A quote in a value comes back with the backslash that %q has written.
quote_test :
    get (load_yml (some (render ((codes "k", 97 ∷ 34 ∷ 98 ∷ []) ∷ [])))) (codes "k")
    ≡ some (97 ∷ 92 ∷ 34 ∷ 98 ∷ [])
unfolding load_yml load_lines render scan_lines split_colon get put insert_entry
quote_test = refl
