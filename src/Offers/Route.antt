-- ===== src/Offers/Route.antt =====
-- services/offer_fulfill_remote.go: how a request is served.
use loon_agent.Prelude.{
  ℕ, ◌*◌, ◌%◌, ◌^◌, ◌≤◌, ◌<◌, ◌≡◌, ◌≢◌, ◌⊎◌, refl, inl, inr, Bool, true, false, ◌&&◌, not, Option,
  none, some, [], ◌∷◌, arith, Bytes, equal, equal_iff, if◌then◌else◌, lt_signed, word, Bool-cases,
}

pub data FulfillRoute : Type 0 where
  route_none route_local route_remote route_remote_disabled : FulfillRoute

-- The columns of the cached row that the choice reads.
pub record OfferSource : Type 0 where
  pub local_path : Bytes
  pub torrent_url : Bytes
  pub size_bytes : ℕ  -- int64

pub record RemoteConfig : Type 0 where
  pub remote_fulfill : Bool
  pub remote_max_gb : ℕ  -- int64

abbrev pub is_enabled : Option RemoteConfig → Bool
is_enabled none = false
is_enabled (some cfg) = cfg.remote_fulfill

-- `maxGB > 0 && src.SizeBytes > int64(maxGB)*(1<<30)`
abbrev pub is_oversized : ℕ → Option RemoteConfig → Bool
is_oversized size none = false
is_oversized size (some cfg) =
    lt_signed 0 cfg.remote_max_gb && lt_signed (cfg.remote_max_gb * 2 ^ 30 % word) size

-- `none` is a nil configuration.
unfoldable pub choose_fulfill_route : OfferSource → Option RemoteConfig → FulfillRoute
choose_fulfill_route src cfg =
    if not (equal src.local_path [])
    then route_local
    else if equal src.torrent_url []
    then route_none
    else if not (is_enabled cfg)
    then route_remote_disabled
    else if is_oversized src.size_bytes cfg
    then route_remote_disabled
    else route_remote

-- What each route says of the row and of the configuration.
abbrev pub Justifies : OfferSource → Option RemoteConfig → FulfillRoute → Type 0
Justifies src cfg route_local = src.local_path ≢ []
Justifies src cfg route_none = (src.local_path ≡ []) × (src.torrent_url ≡ [])
Justifies src none route_remote = ⊥
Justifies src (some cfg) route_remote =
    (src.local_path ≡ [])
    × (src.torrent_url ≢ [])
    × (cfg.remote_fulfill ≡ true)
    × ((cfg.remote_max_gb ≡ 0) ⊎ (src.size_bytes ≤ cfg.remote_max_gb * 2 ^ 30))
Justifies src none route_remote_disabled = (src.local_path ≡ []) × (src.torrent_url ≢ [])
Justifies src (some cfg) route_remote_disabled =
    (src.local_path ≡ [])
    × (src.torrent_url ≢ [])
    × ((cfg.remote_fulfill ≡ false) ⊎ (cfg.remote_max_gb * 2 ^ 30 < src.size_bytes))

-- The configured ceiling in bytes is an int64 without overflow.
abbrev pub Fits : Option RemoteConfig → Type 0
Fits none = Unit
Fits (some cfg) = cfg.remote_max_gb < 2 ^ 33

abbrev remote_route : ℕ → Option RemoteConfig → FulfillRoute
remote_route size cfg =
    if not (is_enabled cfg)
    then route_remote_disabled
    else if is_oversized size cfg
    then route_remote_disabled
    else route_remote

within :
    (gb size : ℕ)
    → gb < 2 ^ 33
    → size < 2 ^ 63
    → (lt_signed 0 gb && lt_signed (gb * 2 ^ 30 % word) size) ≡ false
    → (gb ≡ 0) ⊎ (size ≤ gb * 2 ^ 30)
within gb size hg hs h = ground arith

beyond :
    (gb size : ℕ)
    → gb < 2 ^ 33
    → size < 2 ^ 63
    → (lt_signed 0 gb && lt_signed (gb * 2 ^ 30 % word) size) ≡ true
    → gb * 2 ^ 30 < size
beyond gb size hg hs h = ground arith

remote_route-Justifies :
    (src : OfferSource) (cfg : Option RemoteConfig)
    → Fits cfg
    → src.size_bytes < 2 ^ 63
    → src.local_path ≡ []
    → src.torrent_url ≢ []
    → Justifies src cfg (remote_route src.size_bytes cfg)
remote_route-Justifies src none f s l u = (l, u)
remote_route-Justifies src (some cfg) f s l u = elim (Bool-cases cfg.remote_fulfill) [
  | inr off ↦ rw off (l, u, inl refl)
  | inl on ↦ rw on (elim (Bool-cases (is_oversized src.size_bytes (some cfg))) [
    | inl large ↦ rw large (l, u, inr (beyond cfg.remote_max_gb src.size_bytes f s large))
    | inr small ↦ rw small (l, u, refl, within cfg.remote_max_gb src.size_bytes f s small)
  ])
]

not_empty : (s : Bytes) → equal s [] ≡ false → s ≢ []
not_empty [] h e = cc
not_empty (c ∷ s) h e = cc

-- For a size and a ceiling that an int64 holds: a request is served from disk exactly where there
-- is a local copy; without one and without a torrent there is no route; and a torrent is
-- downloaded only if the operator has enabled that and its size is within the ceiling, or no
-- ceiling is set.
pub choose_fulfill_route-Justifies :
    (src : OfferSource) (cfg : Option RemoteConfig)
    → Fits cfg
    → src.size_bytes < 2 ^ 63
    → Justifies src cfg (choose_fulfill_route src cfg)
unfolding choose_fulfill_route
choose_fulfill_route-Justifies src cfg f s = elim (Bool-cases (equal src.local_path [])) [
  | inr copied ↦ rw copied (not_empty src.local_path copied)
  | inl absent ↦
      let l = (equal_iff src.local_path []).0 absent in
      rw absent (elim (Bool-cases (equal src.torrent_url [])) [
        | inl gone ↦ rw gone (l, (equal_iff src.torrent_url []).0 gone)
        | inr given ↦
            rw given (remote_route-Justifies src cfg f s l (not_empty src.torrent_url given))
      ])
]
