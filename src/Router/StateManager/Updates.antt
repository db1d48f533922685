-- ===== src/Router/StateManager/Updates.antt =====
-- The updates that a manager gets, and the registers that they are offered to.
use mikrom.Prelude.{
  String, Bool, true, false, Option, none, some, List, [], ◌∷◌, inl, inr, if◌then◌else◌, same,
}
use mikrom.Prelude.Int.{ℤ}
use mikrom.Prelude.Maps.{get}
use mikrom.Router.State.{Libraries, Route, Certificate, State, StateVersions, Disk}
use mikrom.Router.StateManager.{
  StateManager, add_acme_token, remove_acme_token, add_certificate, update_route_targets,
}
use mikrom.Router.StateManager.Register.{Register, offer}

-- A call of an operation of the manager.
pub data Update : Type 0 where
  acme_added : String → String → ℤ → Update
  acme_removed : String → ℤ → Update
  certificate_added : String → String → String → ℤ → Update
  targets_updated : String → List String → ℤ → Update

pub data Key : Type 0 where
  route acme certificate : String → Key

pub data Item : Type 0 where
  targets : List String → Item
  key_auth : String → Item
  pem : String → String → Item

abbrev pub same_key : Key → Key → Bool
same_key (route a) (route b) = same a b
same_key (acme a) (acme b) = same a b
same_key (certificate a) (certificate b) = same a b
same_key _ _ = false

abbrev pub acme_item : Option String → Option Item
acme_item none = none
acme_item (some a) = some (key_auth a)

module _ {L : Libraries} where
  abbrev pub route_item : Option (Route L) → Option Item
  route_item none = none
  route_item (some r) = some (targets r.targets)

  abbrev pub certificate_item : Option (Certificate L) → Option Item
  certificate_item none = none
  certificate_item (some c) = some (pem c.cert_pem c.key_pem)

  -- What a state and its versions hold for a key.
  abbrev pub view : Key → State L → StateVersions → Register Item
  view (route k) s v = (get k v.route_versions, route_item (get k s.routes))
  view (acme k) s v = (get k v.acme_versions, acme_item (get k s.acme_tokens))
  view (certificate k) s v = (get k v.certificate_versions, certificate_item (get k s.certificates))

  abbrev pub held : Key → StateManager L → Register Item
  held k m = view k m.state m.versions

  abbrev pub apply : Disk L → Update → StateManager L → StateManager L
  apply disk (acme_added token auth t) m = (add_acme_token L disk token auth t m).1
  apply disk (acme_removed token t) m = (remove_acme_token L disk token t m).1
  apply disk (certificate_added domain cert key t) m =
      (add_certificate L disk domain cert key t m).1
  apply disk (targets_updated host ts t) m = (update_route_targets L disk host ts t m).1

-- What an update offers to a key: nothing to another key, nothing where the targets are refused.
module _ (L : Libraries) where
  abbrev pub accepted : List String → Bool
  accepted [] = true
  accepted (t ∷ ts) = elim (L.try_from_iter (t ∷ ts)) [ inl err ↦ false | inr lb ↦ true ]

  abbrev pub targets_item : List String → Option Item
  targets_item [] = none
  targets_item (t ∷ ts) = some (targets (t ∷ ts))

  abbrev pub offer_of : Key → Update → Option (ℤ × Option Item)
  offer_of k (acme_added token auth t) =
      if same_key (acme token) k then some (t, some (key_auth auth)) else none
  offer_of k (acme_removed token t) = if same_key (acme token) k then some (t, none) else none
  offer_of k (certificate_added domain cert key t) =
      if same_key (certificate domain) k then some (t, some (pem cert key)) else none
  offer_of k (targets_updated host ts t) =
      if same_key (route host) k
      then if accepted ts then some (t, targets_item ts) else none
      else none

  abbrev pub taken : Option (ℤ × Option Item) → Register Item → Register Item
  taken none r = r
  taken (some o) r = offer o r

  abbrev pub and_then : Option (ℤ × Option Item) → List (ℤ × Option Item) → List (ℤ × Option Item)
  and_then none os = os
  and_then (some o) os = o ∷ os

  abbrev pub offers : Key → List (Disk L × Update) → List (ℤ × Option Item)
  offers k [] = []
  offers k ((disk, u) ∷ us) = and_then (offer_of k u) (offers k us)

-- A run of updates, the calls in order, each with the disk that it meets.
unfoldable pub run : {L : Libraries} → List (Disk L × Update) → StateManager L → StateManager L
run [] m = m
run ((disk, u) ∷ us) m = run us (apply disk u m)
