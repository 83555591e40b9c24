-- ===== src/Portal/Links.antt =====
-- The links between clients and accounts over any run of requests that make them.
use support_endpoint.Prelude.{
  ℕ, ◌≡◌, refl, ◌⊎◌, inl, inr, true, false, ◌&&◌, String, List, [], ◌∷◌, push, find, All, All-push,
  All-map, All-of_find, ◌==◌, is_some, arith, Option-cases, Bool-cases,
}
use support_endpoint.Models.{ClientUserLink}
use support_endpoint.Session.{Db, Session, request}
use support_endpoint.Authz.Guard.{guarded_keeps}
use support_endpoint.Auth.Repo.{get_by_email}
use support_endpoint.Ticket.Repo.{get_client}
use support_endpoint.Portal.Service
use support_endpoint.Portal.Service.{PortalQueries, is_linked}
use support_endpoint.Portal.Router.{link_client_user}

pub record LinkRequest : Type 0 where
  pub workspace_id : ℕ
  pub client_id : ℕ
  pub user_id : ℕ
  pub user_email : String

unfoldable pub serve_links : PortalQueries → List LinkRequest → Session → Session
serve_links lib [] s = s
serve_links lib (r ∷ rs) s =
    serve_links lib rs
      (request (link_client_user lib r.workspace_id r.client_id r.user_id r.user_email) s).1

-- Two links of one workspace that share the account or the client.
abbrev pub Clash : ClientUserLink → ClientUserLink → Type 0
Clash x y =
    (y.workspace_id ≡ x.workspace_id) × ((y.user_id ≡ x.user_id) ⊎ (y.client_id ≡ x.client_id))

-- `uq_client_user_link_workspace_user` and `uq_client_user_link_workspace_client`.
abbrev pub IsOneToOne : List ClientUserLink → Type 0
IsOneToOne [] = Unit
IsOneToOne (l ∷ ls) = All (λ y. ¬ Clash l y) ls × IsOneToOne ls

-- Links are one to one in each workspace, and each leads to a client of its own workspace.
pub record HasLinks (d : Db) : Type 0 where
  pub one_to_one : IsOneToOne d.client_user_links
  pub clients :
      All
        (λ (l : ClientUserLink). is_some (get_client l.workspace_id l.client_id d) ≡ true)
        d.client_user_links

IsOneToOne-push :
    (l : ClientUserLink) (ls : List ClientUserLink)
    → All (λ y. ¬ Clash y l) ls
    → IsOneToOne ls
    → IsOneToOne (push l ls)
IsOneToOne-push l [] h k = (tt, tt)
IsOneToOne-push l (x ∷ ls) h k = (All-push _ l ls k.0 h.0, IsOneToOne-push l ls h.1 k.1)

-- A link that no row takes part of clashes with none.
not_linked :
    (w client user : ℕ) (l : ClientUserLink) (ls : List ClientUserLink)
    → l.workspace_id ≡ w
    → l.user_id ≡ user
    → l.client_id ≡ client
    → All (λ y. is_linked w client user y ≡ false) ls
    → All (λ y. ¬ Clash y l) ls
not_linked w client user l ls here of to h = All-map ls (λ y k c. ground arith) h

module _ (lib : PortalQueries) (w client actor : ℕ) (email : String) (s : Session) where
  abbrev new_link : ℕ → ClientUserLink
  new_link user = record {
    id = s.next_id;
    workspace_id = w;
    client_id = client;
    user_id = user;
    linked_by_user_id = actor;
  }

  link_client_user-HasLinks :
      HasLinks s.stored
      → HasLinks (request (Service.link_client_user lib w client email actor) s).1.stored
  unfolding request Service.link_client_user get_client
  link_client_user-HasLinks h = elim (Option-cases (get_client w client s.stored)) [
    | inl e ↦ rw e h
    | inr (c, e) ↦ elim (Option-cases (get_by_email (lib.lower email) s.stored)) [
      | inl f ↦ rw (e, f) h
      | inr (u, f) ↦ elim (Bool-cases u.is_active) [
        | inr g ↦ rw (e, f, g) h
        | inl g ↦ elim (Option-cases (find (is_linked w client u.id) s.stored.client_user_links)) [
          | inr (old, k) ↦ elim (Bool-cases (old.user_id == u.id && old.client_id == client)) [
            | inl m ↦ rw (e, f, g, k, m) h
            | inr m ↦ rw (e, f, g, k, m) h
          ]
          | inl k ↦
              rw (e, f, g, k)
                (record {
                  one_to_one =
                      IsOneToOne-push _ s.stored.client_user_links
                        (not_linked w client u.id (new_link u.id) s.stored.client_user_links refl
                          refl refl (All-of_find _ s.stored.client_user_links k))
                        h.one_to_one;
                  clients =
                      All-push _ (new_link u.id) s.stored.client_user_links h.clients (rw e refl);
                })
        ]
      ]
    ]
  ]

-- If in each workspace no account and no client is linked twice and every link leads to a client of
-- its workspace, then it is so after any run of requests that link clients to accounts.
pub serve_links-HasLinks :
    (lib : PortalQueries) (rs : List LinkRequest) (s : Session)
    → HasLinks s.stored
    → HasLinks (serve_links lib rs s).stored
unfolding serve_links link_client_user
serve_links-HasLinks lib [] s h = h
serve_links-HasLinks lib (r ∷ rs) s h = serve_links-HasLinks lib rs _ (
    guarded_keeps (λ out. HasLinks out.1.stored) _ r.workspace_id r.user_id _ s (λ e. h)
      (λ m found held.
        link_client_user-HasLinks lib r.workspace_id r.client_id m.user_id r.user_email s h))
