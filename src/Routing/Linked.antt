-- ===== src/Routing/Linked.antt =====
-- `LinkedHashMap` of the crate ritelinked, as far as src/discovery/routing.rs uses it: a map whose
-- iteration runs from the entry inserted first to the one inserted last, where inserting a key that
-- is there moves it to the back. The fields after `iter` are what its documentation says.
use udp2p.Base.{
  ℕ, ◌≡◌, List, [], ◌∷◌, ◌++◌, Option, some, none, Bool, true, false, length, drop, get_elem?,
}
use udp2p.Base.Dict
use udp2p.Base.Dict.{get}
use udp2p.Node.Peer.{Text, Text-discrete, PeerInfo}

abbrev pub is_some {ℓ} : {A : Type ℓ} → Option A → Bool
is_some none = false
is_some (some a) = true

pub record LinkedMap : Type 1 where
  pub Map : Type 0
  pub empty : Map
  pub insert : Text → PeerInfo → Map → Map
  pub contains_key : Text → Map → Bool
  pub remove : Text → Map → Map × Option PeerInfo
  pub pop_front : Map → Map × Option (Text × PeerInfo)
  pub len : Map → ℕ
  pub iter : Map → List (Text × PeerInfo)
  pub iter-empty : iter empty ≡ []
  pub iter-insert :
      (k : Text) (v : PeerInfo) (m : Map)
      → iter (insert k v m) ≡ Dict.remove Text-discrete k (iter m) ++ (k, v) ∷ []
  pub contains_key-get :
      (k : Text) (m : Map) → contains_key k m ≡ is_some (get Text-discrete k (iter m))
  pub iter-remove :
      (k : Text) (m : Map)
      → (iter (remove k m).0 ≡ Dict.remove Text-discrete k (iter m))
        × ((remove k m).1 ≡ get Text-discrete k (iter m))
  pub iter-pop_front :
      (m : Map)
      → (iter (pop_front m).0 ≡ drop 1 (iter m)) × ((pop_front m).1 ≡ get_elem? (iter m) 0)
  pub len-iter : (m : Map) → len m ≡ length (iter m)
