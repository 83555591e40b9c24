-- ===== src/Ticket/Tags.antt =====
-- Tags of tickets: the unique constraint of models/ticket.py (`uq_ticket_tag`) is kept by the
-- code's own lookups, and adding and removing a tag do what they say.
use support_endpoint.Prelude.{
  ℕ, ◌≡◌, sym, subst₂, inl, inr, Bool, true, false, none, some, List, [], ◌∷◌, arith, All, All-push,
  All-remove_where, push, remove_where, find, ◌==◌, ◌&&◌, Bool-cases, if◌then◌else◌,
}
use support_endpoint.Models.{TicketTag}
use support_endpoint.Session.{Db, Session}
use support_endpoint.Ticket.Repo.{get_ticket_tag}
use support_endpoint.Ticket.Server.{Request, serve, serve_keeps, Anywhere, All-Anywhere}
use support_endpoint.Ticket.Step.{Step}

-- `TicketTag.ticket_id == ticket_id, TicketTag.tag_id == tag_id`
abbrev pub is_link : ℕ → ℕ → TicketTag → Bool
is_link i g l = l.ticket_id == i && l.tag_id == g

abbrev SamePair : TicketTag → TicketTag → Type 0
SamePair l k = (k.ticket_id ≡ l.ticket_id) × (k.tag_id ≡ l.tag_id)

-- No pair of a ticket and a tag stands in two rows.
abbrev pub PairsUnique : List TicketTag → Type 0
PairsUnique [] = Unit
PairsUnique (l ∷ ls) = All (λ (k : TicketTag). ¬ SamePair l k) ls × PairsUnique ls

find-none :
    (i g : ℕ) (ls : List TicketTag)
    → find (is_link i g) ls ≡ none
    → All (λ (k : TicketTag). is_link i g k ≡ false) ls
unfolding find
find-none i g [] h = tt
find-none i g (l ∷ ls) h = elim (Bool-cases (is_link i g l)) [
  | inl b ↦ absurd (clash b (rw b at h))
  | inr b ↦ (b, find-none i g ls (rw b at h))
]
  where
    clash : is_link i g l ≡ true → some l ≡ none → ⊥
    clash b e = cc

PairsUnique-push :
    (l : TicketTag) (ls : List TicketTag)
    → All (λ (k : TicketTag). is_link l.ticket_id l.tag_id k ≡ false) ls
    → PairsUnique ls
    → PairsUnique (push l ls)
PairsUnique-push l [] h u = (tt, tt)
PairsUnique-push l (x ∷ ls) h u = (
  All-push (λ (k : TicketTag). ¬ SamePair x k) l ls u.0 (λ same. different same h.0),
  PairsUnique-push l ls h.1 u.1,
)
  where
    different : SamePair x l → is_link l.ticket_id l.tag_id x ≡ false → ⊥
    different same no_link = ground arith

PairsUnique-remove_where :
    (q : TicketTag → Bool) (ls : List TicketTag) → PairsUnique ls → PairsUnique (remove_where q ls)
unfolding remove_where
PairsUnique-remove_where q [] u = tt
PairsUnique-remove_where q (l ∷ ls) u =
    step (q l) (PairsUnique-remove_where q ls u.1)
      (All-remove_where (λ (k : TicketTag). ¬ SamePair l k) q ls u.0)
  where
    step :
        (b : Bool)
        → PairsUnique (remove_where q ls)
        → All (λ (k : TicketTag). ¬ SamePair l k) (remove_where q ls)
        → PairsUnique (let rest = remove_where q ls in if b then rest else l ∷ rest)
    step true rest h = rest
    step false rest h = (h, rest)

abbrev Unique : Db → ℕ → Type 0
Unique d n = PairsUnique d.ticket_tags

Step-PairsUnique :
    (w : ℕ) (s s' : Session)
    → Step w s s'
    → PairsUnique s.stored.ticket_tags
    → PairsUnique s'.stored.ticket_tags
unfolding get_ticket_tag
Step-PairsUnique w s s' (Step.created _ _ _ _ _ _ _ _ _ _ eq n) u = subst₂ Unique (sym eq) (sym n) u
Step-PairsUnique w s s' (Step.updated _ _ _ _ _ _ _ eq n) u = subst₂ Unique (sym eq) (sym n) u
Step-PairsUnique w s s' (Step.moved _ _ _ _ _ _ _ eq n) u = subst₂ Unique (sym eq) (sym n) u
Step-PairsUnique w s s' (Step.assigned _ _ _ _ _ _ _ _ _ _ eq n) u =
    subst₂ Unique (sym eq) (sym n) u
Step-PairsUnique w s s' (Step.tagged t l e _ own _ no_link _ eq n) u =
    subst₂ Unique (sym eq) (sym n) (
      PairsUnique-push l s.stored.ticket_tags
        (find-none l.ticket_id l.tag_id s.stored.ticket_tags (rw own no_link)) u)
Step-PairsUnique w s s' (Step.tag_kept _ _ _ _ _ _ eq n) u = subst₂ Unique (sym eq) (sym n) u
Step-PairsUnique w s s' (Step.untagged t g l e _ _ _ eq n) u =
    subst₂ Unique (sym eq) (sym n) (PairsUnique-remove_where _ s.stored.ticket_tags u)
Step-PairsUnique w s s' (Step.no_tag _ _ _ _ _ _ eq n) u = subst₂ Unique (sym eq) (sym n) u

-- If no ticket carries a tag twice, then none does after any run of requests about tickets: the
-- database's unique constraint on (ticket_id, tag_id) is kept.
pub serve-PairsUnique :
    (rs : List Request) (s : Session)
    → PairsUnique s.stored.ticket_tags
    → PairsUnique (serve rs s).stored.ticket_tags
serve-PairsUnique rs s u =
    serve_keeps Anywhere Unique (λ w a b _ step h. Step-PairsUnique w a b step h) rs s
      (All-Anywhere rs) u
