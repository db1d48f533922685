-- ===== src/Router/StateManager/Refinement.antt =====
-- The manager is, for each key, a register that the updates are offered to.
use mikrom.Prelude.{
  ◌≡◌, refl, ap, ◌∙◌, String, Option, none, some, List, [], ◌∷◌, inl, inr, eq_of_same, arith,
  sum_cases,
}
use mikrom.Prelude.Int.{ℤ}
use mikrom.Prelude.Maps.{get, get-insert, get-remove}
use mikrom.Router.State.{Libraries, Disk}
use mikrom.Router.StateManager.{
  StateManager, prepare_certificate, commit, add_acme_token, remove_acme_token, add_certificate,
  update_route_targets, route_with, tls_of,
}
use mikrom.Router.StateManager.Register.{Register, settle}
use mikrom.Router.StateManager.Updates.{
  Update, acme_added, acme_removed, certificate_added, targets_updated, Key, route, acme,
  certificate, Item, held, apply, taken, offer_of, and_then, offers, run,
}

module _ {L : Libraries} (disk : Disk L) (m : StateManager L) where
  held-add_acme_token :
      (token auth : String) (t : ℤ) (k : Key)
      → held k (apply disk (acme_added token auth t) m)
        ≡ taken L (offer_of L k (acme_added token auth t)) (held k m)
  unfolding add_acme_token commit
  held-add_acme_token token auth t (route j) = ground arith
  held-add_acme_token token auth t (certificate j) = ground arith
  held-add_acme_token token auth t (acme j) = ground (
    arith,
    get-insert j token auth m.state.acme_tokens,
    get-insert j token t m.versions.acme_versions,
    eq_of_same token j,
  )

  held-remove_acme_token :
      (token : String) (t : ℤ) (k : Key)
      → held k (apply disk (acme_removed token t) m)
        ≡ taken L (offer_of L k (acme_removed token t)) (held k m)
  unfolding remove_acme_token commit
  held-remove_acme_token token t (route j) = ground arith
  held-remove_acme_token token t (certificate j) = ground arith
  held-remove_acme_token token t (acme j) = ground (
    arith,
    get-remove j token m.state.acme_tokens,
    get-insert j token t m.versions.acme_versions,
    eq_of_same token j,
  )

  held-add_certificate :
      (domain cert key : String) (t : ℤ) (k : Key)
      → held k (apply disk (certificate_added domain cert key t) m)
        ≡ taken L (offer_of L k (certificate_added domain cert key t)) (held k m)
  unfolding add_certificate commit prepare_certificate
  held-add_certificate domain cert key t (route j) = ground arith
  held-add_certificate domain cert key t (acme j) = ground arith
  held-add_certificate domain cert key t (certificate j) = ground (
    arith,
    get-insert j domain
        (prepare_certificate L
          (record { cert_pem = cert; key_pem = key; parsed_chain = []; parsed_key = none }))
        m.state.certificates,
    get-insert j domain t m.versions.certificate_versions,
    eq_of_same domain j,
  )

  held-update_route_targets :
      (host : String) (ts : List String) (t : ℤ) (k : Key)
      → held k (apply disk (targets_updated host ts t) m)
        ≡ taken L (offer_of L k (targets_updated host ts t)) (held k m)
  unfolding update_route_targets commit
  held-update_route_targets host [] t (acme j) = ground arith
  held-update_route_targets host [] t (certificate j) = ground arith
  held-update_route_targets host [] t (route j) = ground (
    arith,
    get-remove j host m.state.routes,
    get-insert j host t m.versions.route_versions,
    eq_of_same host j,
  )
  held-update_route_targets host (x ∷ xs) t (acme j) = ground arith
  held-update_route_targets host (x ∷ xs) t (certificate j) = ground arith
  held-update_route_targets host (x ∷ xs) t (route j) =
      elim (sum_cases (L.try_from_iter (x ∷ xs))) [
        | inl (err, e) ↦ ground (arith, e)
        | inr (lb, e) ↦ ground (
          arith,
          e,
          get-insert j host
              (route_with L disk host (x ∷ xs) lb (tls_of L disk (get host m.state.routes)))
              m.state.routes,
          get-insert j host t m.versions.route_versions,
          eq_of_same host j,
        )
      ]

  held-apply :
      (u : Update) (k : Key) → held k (apply disk u m) ≡ taken L (offer_of L k u) (held k m)
  held-apply (acme_added token auth t) k = held-add_acme_token token auth t k
  held-apply (acme_removed token t) k = held-remove_acme_token token t k
  held-apply (certificate_added domain cert key t) k = held-add_certificate domain cert key t k
  held-apply (targets_updated host ts t) k = held-update_route_targets host ts t k

settle-and_then :
    (L : Libraries) (o : Option (ℤ × Option Item)) (os : List (ℤ × Option Item)) (r : Register Item)
    → settle os (taken L o r) ≡ settle (and_then L o os) r
unfolding settle
settle-and_then L none os r = refl
settle-and_then L (some o) os r = refl

-- After any run of updates, whatever the disk did, each key of the manager, a host, a token or a domain,
-- has the version and the targets, the answer or the certificate that it would have as a register of its
-- own to which the updates of that key are offered in order, of which it keeps those that are newer than
-- what it holds. Updates whose targets have no balancer count for nothing, empty targets take the route
-- away, and a deleted token is gone.
pub held-run :
    {L : Libraries} (us : List (Disk L × Update)) (m : StateManager L) (k : Key)
    → held k (run us m) ≡ settle (offers L k us) (held k m)
unfolding run settle
held-run [] m k = refl
held-run {L} ((disk, u) ∷ us) m k =
    held-run us (apply disk u m) k
    ∙ ap (settle (offers L k us)) (held-apply disk m u k)
    ∙ settle-and_then L (offer_of L k u) (offers L k us) (held k m)
