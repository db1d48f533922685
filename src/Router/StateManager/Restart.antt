-- ===== src/Router/StateManager/Restart.antt =====
-- What a restart brings back from the cache file.
use mikrom.Prelude.{
  ◌≡◌, refl, ap, ◌∙◌, String, Bool, true, false, Option, none, some, List, [], ◌∷◌, inl, inr, ◌⊎◌,
  if◌then◌else◌, same, arith, Bool-cases,
}
use mikrom.Prelude.Maps.{HashMap, get, insert, get-insert}
use mikrom.Router.State.{
  Libraries, Route, Certificate, State, StateVersions, SerializableState, Disk, CacheFile,
}
use mikrom.Router.StateManager.{
  no_state, no_versions, StateManager, add_acme_token, remove_acme_token, add_certificate,
  update_route_targets, prepare_certificate, prepare_certificates, from_snapshot, targets_of,
  restore_routes, into_snapshot, load_cached_state, new_manager, persist_snapshot, commit,
}
use mikrom.Router.StateManager.Updates.{
  Update, acme_added, acme_removed, certificate_added, targets_updated, apply, Key, route, acme,
  certificate, Item, route_item, certificate_item, view, held,
}
use mikrom.Router.StateManager.Invariant.{Values, IsBalanced, has_balancer, IsValid, apply-IsValid}

no_balancer :
    (L : Libraries) (ts : List String) (err : String)
    → L.try_from_iter ts ≡ inl err
    → has_balancer L ts ≡ true
    → ⊥
no_balancer L ts err e h = ground (arith, e)

module _ {L : Libraries} where
  -- A certificate without the fields that serde skips.
  abbrev pub skip_parsed : HashMap (Certificate L) → HashMap (Certificate L)
  skip_parsed [] = []
  skip_parsed ((d, c) ∷ cs) =
      (d, record c { parsed_chain = []; parsed_key = none }) ∷ skip_parsed cs

  -- The state as it is read back from its text.
  abbrev pub read_back : SerializableState L → SerializableState L
  read_back s = record s { certificates = skip_parsed s.certificates }

  get-prepare :
      (k : String) (cs : HashMap (Certificate L))
      → certificate_item (get k (prepare_certificates L (skip_parsed cs)))
        ≡ certificate_item (get k cs)
  unfolding get prepare_certificates prepare_certificate
  get-prepare k [] = refl
  get-prepare k ((d, c) ∷ cs) = elim (Bool-cases (same d k)) [
    | inl e ↦ rw (e) refl
    | inr e ↦ rw (e) (get-prepare k cs)
  ]

  get-restore :
      (k : String) (rs : HashMap (Route L))
      → Values (IsBalanced L) rs
      → route_item (get k (restore_routes L (targets_of L rs))) ≡ route_item (get k rs)
  unfolding get restore_routes
  get-restore k [] b = refl
  get-restore k ((h, r) ∷ rs) (b, bs) =
      restored (L.try_from_iter r.targets) refl (get-restore k rs bs)
    where
      restored :
          (s : String ⊎ L.LoadBalancer)
          → L.try_from_iter r.targets ≡ s
          → route_item (get k (restore_routes L (targets_of L rs))) ≡ route_item (get k rs)
          → route_item (
              get k (elim s as (λ _. HashMap (Route L)) [
                | inl err ↦ restore_routes L (targets_of L rs)
                | inr lb ↦
                    insert h
                      (record {
                        host = h;
                        targets = r.targets;
                        lb = lb;
                        use_tls = false;
                        tls_alternative_cn = none;
                      })
                      (restore_routes L (targets_of L rs))
              ]))
            ≡ route_item (if same h k then some r else get k rs)
      restored (inl err) e ih = absurd (no_balancer L r.targets err e b)
      restored (inr lb) e ih = elim (Bool-cases (same h k)) [
        | inl q ↦ rw (get-insert k h _ (restore_routes L (targets_of L rs)), q) refl
        | inr q ↦ rw (get-insert k h _ (restore_routes L (targets_of L rs)), q) ih
      ]

  restored_view :
      (k : Key) (s : State L) (v : StateVersions)
      → Values (IsBalanced L) s.routes
      → view k
          (into_snapshot L (read_back (from_snapshot L s v))).0
          (into_snapshot L (read_back (from_snapshot L s v))).1
        ≡ view k s v
  unfolding into_snapshot from_snapshot
  restored_view (route k) s v b =
      ap (λ (i : Option Item). (get k v.route_versions, i)) (get-restore k s.routes b)
  restored_view (acme k) s v b = refl
  restored_view (certificate k) s v b =
      ap (λ (i : Option Item). (get k v.certificate_versions, i)) (get-prepare k s.certificates)

  -- Whether the manager takes an update.
  abbrev pub applied : Disk L → Update → StateManager L → Bool
  applied disk (acme_added token auth t) m = (add_acme_token L disk token auth t m).0
  applied disk (acme_removed token t) m = (remove_acme_token L disk token t m).0
  applied disk (certificate_added domain cert key t) m =
      (add_certificate L disk domain cert key t m).0
  applied disk (targets_updated host ts t) m = elim ((update_route_targets L disk host ts t m).0) [
    | inl err ↦ false
    | inr b ↦ b
  ]

  cache-apply :
      (disk : Disk L) (u : Update) (m : StateManager L)
      → applied disk u m ≡ true
      → (apply disk u m).cache
        ≡ persist_snapshot L disk (apply disk u m).state (apply disk u m).versions m.cache
  unfolding commit add_acme_token remove_acme_token add_certificate update_route_targets
  cache-apply disk (acme_added token auth t) m h = ground arith
  cache-apply disk (acme_removed token t) m h = ground arith
  cache-apply disk (certificate_added domain cert key t) m h = ground arith
  cache-apply disk (targets_updated host [] t) m h = ground arith
  cache-apply disk (targets_updated host (x ∷ xs) t) m h = ground arith

  module _ (disk : Disk L) (u : Update) (m : StateManager L) (json : String) where
    loaded :
        (text : String) (s : SerializableState L)
        → disk.from_str text ≡ some s
        → load_cached_state L disk (CacheFile.content text) ≡ into_snapshot L s
    unfolding load_cached_state
    loaded text s r =
        ap
          (λ (o : Option (SerializableState L)). elim o as (λ _. State L × StateVersions) [
            | none ↦ (no_state L, no_versions)
            | some q ↦ into_snapshot L q
          ])
          r

    abbrev saved : SerializableState L
    saved = from_snapshot L (apply disk u m).state (apply disk u m).versions

    cache_saved :
        applied disk u m ≡ true
        → disk.saves ≡ true
        → disk.to_string_pretty saved ≡ some json
        → (apply disk u m).cache ≡ CacheFile.content json
    unfolding persist_snapshot
    cache_saved h w e = cache-apply disk u m h ∙ (ground (arith, e, w))

    -- A manager that is started on the file that an update left, where the update was taken, the disk took
    -- the file, and serde_json reads back what it wrote without the parsed parts of certificates: each
    -- host, token and domain has the version and the targets, the answer or the certificate that it had
    -- before the restart.
    pub restart_held :
        IsValid m
        → applied disk u m ≡ true
        → disk.saves ≡ true
        → disk.to_string_pretty saved ≡ some json
        → disk.from_str json ≡ some (read_back saved)
        → (k : Key) → held k (new_manager L disk (apply disk u m).cache) ≡ held k (apply disk u m)
    unfolding new_manager
    restart_held v h w e r k =
        rw (cache_saved h w e, loaded json (read_back saved) r)
          (restored_view k (apply disk u m).state (apply disk u m).versions
            (apply-IsValid disk m v u).balanced)
