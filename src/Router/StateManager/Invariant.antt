-- ===== src/Router/StateManager/Invariant.antt =====
-- What holds of a manager between two operations.
use mikrom.Prelude.{
  ◌≡◌, refl, String, Bool, true, false, none, some, List, [], ◌∷◌, inl, inr, if◌then◌else◌, same,
  arith, Bool-cases, ◌⊎◌,
}
use mikrom.Prelude.Int.{ℤ}
use mikrom.Prelude.Maps.{HashMap, get, insert, remove}
use mikrom.Router.State.{Libraries, Route, Certificate, State, StateVersions, Disk, CacheFile}
use mikrom.Router.StateManager.{
  StateManager, no_versions, no_state, prepare_certificate, prepare_certificates, commit,
  add_acme_token, remove_acme_token, add_certificate, update_route_targets, set_routes, route_with,
  tls_of, restore_routes, into_snapshot, load_cached_state, new_manager,
}
use mikrom.Router.StateManager.Updates.{
  Update, acme_added, acme_removed, certificate_added, targets_updated, apply, run,
}

-- A predicate of every value of a map.
abbrev pub Values : {V : Type 0} → (V → Type 0) → HashMap V → Type 0
Values P [] = Unit
Values P ((k, v) ∷ m) = P v × Values P m

module _ {V : Type 0} (P : V → Type 0) where
  pub Values-insert :
      (k : String) (v : V) (m : HashMap V) → P v → Values P m → Values P (insert k v m)
  unfolding insert
  Values-insert k v [] h a = (h, tt)
  Values-insert k v ((j, w) ∷ m) h a = elim (Bool-cases (same j k)) [
    | inl e ↦ rw (e) (h, a.1)
    | inr e ↦ rw (e) (a.0, Values-insert k v m h a.1)
  ]

  pub Values-remove : (k : String) (m : HashMap V) → Values P m → Values P (remove k m)
  unfolding remove
  Values-remove k [] a = tt
  Values-remove k ((j, w) ∷ m) a = elim (Bool-cases (same j k)) [
    | inl e ↦ rw (e) (Values-remove k m a.1)
    | inr e ↦ rw (e) (a.0, Values-remove k m a.1)
  ]

module _ (L : Libraries) where
  abbrev pub has_balancer : List String → Bool
  has_balancer ts = elim (L.try_from_iter ts) [ inl err ↦ false | inr lb ↦ true ]

  -- The targets of a route have a balancer.
  abbrev pub IsBalanced : Route L → Type 0
  IsBalanced r = has_balancer r.targets ≡ true

  -- The parsed parts of a certificate are those of its texts.
  abbrev pub IsPrepared : Certificate L → Type 0
  IsPrepared c = prepare_certificate L c ≡ c

module _ (L : Libraries) where
  pub has_balancer-inr :
      (ts : List String) (lb : L.LoadBalancer)
      → L.try_from_iter ts ≡ inr lb
      → has_balancer L ts ≡ true
  has_balancer-inr ts lb e = ground (arith, e)

  restore-Values : (rs : HashMap (List String)) → Values (IsBalanced L) (restore_routes L rs)
  unfolding restore_routes
  restore-Values [] = tt
  restore-Values ((host, ts) ∷ rs) = restored (L.try_from_iter ts) refl (restore-Values rs)
    where
      restored :
          (s : String ⊎ L.LoadBalancer)
          → L.try_from_iter ts ≡ s
          → Values (IsBalanced L) (restore_routes L rs)
          → Values (IsBalanced L) (elim s as (λ _. HashMap (Route L)) [
            | inl err ↦ restore_routes L rs
            | inr lb ↦
                insert host
                  (record {
                    host = host;
                    targets = ts;
                    lb = lb;
                    use_tls = false;
                    tls_alternative_cn = none;
                  })
                  (restore_routes L rs)
          ])
      restored (inl err) e b = b
      restored (inr lb) e b =
          Values-insert (IsBalanced L) host _ (restore_routes L rs) (has_balancer-inr ts lb e) b

module _ {L : Libraries} where
  -- The snapshot that readers get is the state, certificates are parsed, and routes have balancers.
  pub record IsValid (m : StateManager L) : Type 0 where
    pub snapshot_state : m.snapshot.state ≡ m.state
    pub snapshot_versions : m.snapshot.versions ≡ m.versions
    pub prepared : Values (IsPrepared L) m.state.certificates
    pub balanced : Values (IsBalanced L) m.state.routes

  IsPrepared-twice : (c : Certificate L) → IsPrepared L (prepare_certificate L c)
  unfolding prepare_certificate
  IsPrepared-twice c = refl

  pub commit-IsValid :
      (disk : Disk L) (s : State L) (v : StateVersions) (m : StateManager L)
      → Values (IsPrepared L) s.certificates
      → Values (IsBalanced L) s.routes
      → IsValid (commit L disk s v m)
  unfolding commit
  commit-IsValid disk s v m p b = record {
    snapshot_state = refl;
    snapshot_versions = refl;
    prepared = p;
    balanced = b;
  }

  either_IsValid :
      {R : Type 0} (b : Bool) (p q : R × StateManager L)
      → IsValid p.1
      → IsValid q.1
      → IsValid (if b then p else q).1
  either_IsValid true p q v w = v
  either_IsValid false p q v w = w

  module _ (disk : Disk L) (m : StateManager L) (v : IsValid m) where
    add_acme_token-IsValid :
        (token auth : String) (t : ℤ) → IsValid (add_acme_token L disk token auth t m).1
    unfolding add_acme_token
    add_acme_token-IsValid token auth t =
        either_IsValid _ _ _ v (commit-IsValid disk _ _ m v.prepared v.balanced)

    remove_acme_token-IsValid :
        (token : String) (t : ℤ) → IsValid (remove_acme_token L disk token t m).1
    unfolding remove_acme_token
    remove_acme_token-IsValid token t =
        either_IsValid _ _ _ v (commit-IsValid disk _ _ m v.prepared v.balanced)

    add_certificate-IsValid :
        (domain cert key : String) (t : ℤ) → IsValid (add_certificate L disk domain cert key t m).1
    unfolding add_certificate
    add_certificate-IsValid domain cert key t = either_IsValid _ _ _ v (
        commit-IsValid disk _ _ m
          (Values-insert (IsPrepared L) domain _ m.state.certificates (IsPrepared-twice _)
            v.prepared)
          v.balanced)

    set_routes-IsValid :
        (routes : HashMap (Route L)) (host : String) (t : ℤ)
        → Values (IsBalanced L) routes
        → IsValid (set_routes L disk routes host t m)
    set_routes-IsValid routes host t b = commit-IsValid disk _ _ m v.prepared b

    set_route-IsValid :
        (host x : String) (xs : List String) (t : ℤ) (s : String ⊎ L.LoadBalancer)
        → L.try_from_iter (x ∷ xs) ≡ s
        → IsValid
            (elim s as (λ _. (String ⊎ Bool) × StateManager L) [
              | inl err ↦ (inl err, m)
              | inr lb ↦ (
                inr true,
                set_routes L disk
                    (insert host
                      (route_with L disk host (x ∷ xs) lb (tls_of L disk (get host m.state.routes)))
                      m.state.routes)
                    host
                    t
                    m,
              )
            ]).1
    set_route-IsValid host x xs t (inl err) e = v
    set_route-IsValid host x xs t (inr lb) e = set_routes-IsValid _ host t (
        Values-insert (IsBalanced L) host _ m.state.routes (has_balancer-inr L (x ∷ xs) lb e)
          v.balanced)

    update_route_targets-IsValid :
        (host : String) (ts : List String) (t : ℤ)
        → IsValid (update_route_targets L disk host ts t m).1
    unfolding update_route_targets
    update_route_targets-IsValid host [] t =
        either_IsValid _ _ _ v (
          set_routes-IsValid _ host t (Values-remove (IsBalanced L) host m.state.routes v.balanced))
    update_route_targets-IsValid host (x ∷ xs) t =
        either_IsValid _ _ _ v (set_route-IsValid host x xs t (L.try_from_iter (x ∷ xs)) refl)

    pub apply-IsValid : (u : Update) → IsValid (apply disk u m)
    apply-IsValid (acme_added token auth t) = add_acme_token-IsValid token auth t
    apply-IsValid (acme_removed token t) = remove_acme_token-IsValid token t
    apply-IsValid (certificate_added domain cert key t) = add_certificate-IsValid domain cert key t
    apply-IsValid (targets_updated host ts t) = update_route_targets-IsValid host ts t

  run-keeps : (us : List (Disk L × Update)) (m : StateManager L) → IsValid m → IsValid (run us m)
  unfolding run
  run-keeps [] m v = v
  run-keeps ((disk, u) ∷ us) m v = run-keeps us (apply disk u m) (apply-IsValid disk m v u)

  pub IsPrepared-all :
      (cs : HashMap (Certificate L)) → Values (IsPrepared L) (prepare_certificates L cs)
  unfolding prepare_certificates
  IsPrepared-all [] = tt
  IsPrepared-all ((d, c) ∷ cs) = (IsPrepared-twice c, IsPrepared-all cs)

  loaded-IsValid :
      (disk : Disk L) (file : CacheFile L)
      → Values (IsPrepared L) (load_cached_state L disk file).0.certificates
        × Values (IsBalanced L) (load_cached_state L disk file).0.routes
  unfolding load_cached_state into_snapshot
  loaded-IsValid disk (CacheFile.absent) = (tt, tt)
  loaded-IsValid disk (CacheFile.unreadable) = (tt, tt)
  loaded-IsValid disk (CacheFile.content text) =
      elim (disk.from_str text)
        as (λ o.
          Values (IsPrepared L)
            (elim o as (λ _. State L × StateVersions) [
              | none ↦ (no_state L, no_versions)
              | some s ↦ into_snapshot L s
            ]).0.certificates
          × Values (IsBalanced L)
              (elim o as (λ _. State L × StateVersions) [
                | none ↦ (no_state L, no_versions)
                | some s ↦ into_snapshot L s
              ]).0.routes) [
                | none ↦ (tt, tt)
                | some s ↦ (IsPrepared-all s.certificates, restore-Values L s.routes)
              ]

  pub new_manager-IsValid : (disk : Disk L) (file : CacheFile L) → IsValid (new_manager L disk file)
  unfolding new_manager
  new_manager-IsValid disk file = record {
    snapshot_state = refl;
    snapshot_versions = refl;
    prepared = (loaded-IsValid disk file).0;
    balanced = (loaded-IsValid disk file).1;
  }

-- A manager started on whatever cache file, and then given whatever updates, the disk failing or not: the
-- snapshot that readers get is the state and the versions that the updates led to, every certificate is
-- parsed, and every route has a balancer.
pub run-IsValid :
    (L : Libraries) (disk : Disk L) (file : CacheFile L) (us : List (Disk L × Update))
    → IsValid (run us (new_manager L disk file))
run-IsValid L disk file us = run-keeps us (new_manager L disk file) (new_manager-IsValid disk file)
