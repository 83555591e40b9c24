-- ===== src/Portal/Messages.antt =====
-- A message of a client comes back with the messages of its ticket.
use support_endpoint.Prelude.{
  ℕ, ◌<◌, ◌≡◌, refl, ◌∙◌, ap, subst, sym, sort_by, sort_by-push, any-sort_by, All-select, select,
  Bool, true, false, ◌&&◌, none, some, List, [], ◌∷◌, String, push, select-push, select-same, any,
  any-append, any-push_new, any_of-found, find_sound, All, All-map, Option-cases, Bool-cases, inl,
  inr, ◌==◌, arith,
}
use support_endpoint.Models.{
  ClientUserLink, Conversation, ConversationChannel, channel_eq, Message, MessageDirection, Ticket,
}
use support_endpoint.Session.{Db, Session, Result, ok, err, not_found, request}
use support_endpoint.Portal.Service
use support_endpoint.Portal.Service.{get_link, get_linked_ticket, messages_of, web_conversation}
use support_endpoint.Portal.Router.{portal_messages, portal_add_message}

-- How the sending of a message ends. If the account may read the ticket's messages, the message is
-- stored as the last of them, signed by the account; else the refusal is the same as that of the
-- reading, and nothing is stored.
abbrev pub Sends : ℕ → ℕ → ℕ → String → Session → Result Message × Session → Type 0
Sends user link_id ticket_id body s (ok m, s') =
    (m.body ≡ body)
    × (m.author_user_id ≡ some user)
    × (m.direction ≡ MessageDirection.inbound)
    × (before : List Message) × ((request (portal_messages user link_id ticket_id) s).0 ≡ ok before)
    × ((request (portal_messages user link_id ticket_id) s').0 ≡ ok (push m before))
Sends user link_id ticket_id body s (err e, s') =
    ((request (portal_messages user link_id ticket_id) s).0 ≡ err e) × (s'.stored ≡ s.stored)

-- `Conversation.id == Message.conversation_id` with the two conditions on the conversation.
abbrev is_parent : ℕ → ℕ → ℕ → Conversation → Bool
is_parent w ticket i c = c.id == i && c.workspace_id == w && c.ticket_id == ticket

messages_of-push :
    (w ticket : ℕ) (m : Message) (d : Db)
    → m.workspace_id ≡ w
    → any (is_parent w ticket m.conversation_id) d.conversations ≡ true
    → All (λ (x : Message). x.created_at < m.created_at) d.messages
    → messages_of w ticket (record d { messages = push m d.messages })
      ≡ push m (messages_of w ticket d)
unfolding messages_of
messages_of-push w ticket m d here parent old =
    let test : Message → Bool =
      λ x. x.workspace_id == w && any (is_parent w ticket x.conversation_id) d.conversations in
    let earlier = λ (x : Message). x.created_at < m.created_at in
    rw (select-push test m d.messages) (elim (Bool-cases (test m)) [
      | inl e ↦ rw e (
          sort_by-push (λ (x : Message). x.created_at) m (select test d.messages)
            (All-select (λ (x : Message). x.created_at) earlier test d.messages old))
      | inr e ↦ absurd (ground arith)
    ])

messages_of-same :
    (w ticket : ℕ) (d d' : Db)
    → d'.messages ≡ d.messages
    → d'.conversations ≡ d.conversations
    → messages_of w ticket d' ≡ messages_of w ticket d
unfolding messages_of
messages_of-same w ticket d d' messages conversations = rw (messages, conversations) refl

not_parent :
    (w ticket i : ℕ) (c : Conversation) → i < c.id → any (is_parent w ticket i) (c ∷ []) ≡ false
unfolding any
not_parent w ticket i c h = ground arith

new_parent :
    (w ticket : ℕ) (c : Conversation) (cs : List Conversation)
    → c.workspace_id ≡ w
    → c.ticket_id ≡ ticket
    → any (is_parent w ticket c.id) (push c cs) ≡ true
new_parent w ticket c cs here there = any-push_new (is_parent w ticket c.id) c cs (ground arith)

-- A conversation that no message belongs to adds none.
messages_of-conversation :
    (w ticket : ℕ) (c : Conversation) (d : Db)
    → All (λ (m : Message). m.conversation_id < c.id) d.messages
    → messages_of w ticket (record d { conversations = push c d.conversations })
      ≡ messages_of w ticket d
unfolding messages_of
messages_of-conversation w ticket c d old = ap (sort_by (λ (m : Message). m.created_at)) (
    select-same _ _ d.messages (
      All-map d.messages
        (λ m h. ground (
          arith,
          any-append (is_parent w ticket m.conversation_id) d.conversations (c ∷ []),
          not_parent w ticket m.conversation_id c h,
        ))
        old))

-- The conversation that is found is a parent for its own messages.
web_conversation-parent :
    (w ticket : ℕ) (c : Conversation) (d : Db)
    → web_conversation w ticket d ≡ some c
    → any (is_parent w ticket c.id) d.conversations ≡ true
unfolding web_conversation
web_conversation-parent w ticket c d e =
    let test : Conversation → Bool = λ x.
      x.workspace_id == w
      && x.ticket_id == ticket
      && channel_eq x.channel ConversationChannel.web in
    let rows = sort_by (λ (x : Conversation). x.created_at) d.conversations in
    let sound = find_sound test rows c e in
    sym (any-sort_by (λ (x : Conversation). x.created_at) (is_parent w ticket c.id) d.conversations)
    ∙ any_of-found test (is_parent w ticket c.id) rows c e (ground arith)

get_linked_ticket-id :
    (l : ClientUserLink) (i : ℕ) (t : Ticket) (d : Db) → get_linked_ticket l i d ≡ some t → t.id ≡ i
unfolding get_linked_ticket
get_linked_ticket-id l i t d e =
    let sound =
      find_sound
        (λ (x : Ticket).
          x.id == i && x.workspace_id == l.workspace_id && x.client_id == l.client_id)
        d.tickets t e in
    ground arith

-- What the reading of a ticket's messages answers.
module _ (user link_id ticket_id : ℕ) (s : Session) where
  portal_messages_no_link :
      get_link user link_id s.stored ≡ none
      → (request (portal_messages user link_id ticket_id) s).0
        ≡ err (not_found "Portal account not found")
  unfolding request portal_messages Service.list_messages
  portal_messages_no_link e = rw e refl

  module _ (l : ClientUserLink) (e : get_link user link_id s.stored ≡ some l) where
    portal_messages_no_ticket :
        get_linked_ticket l ticket_id s.stored ≡ none
        → (request (portal_messages user link_id ticket_id) s).0
          ≡ err (not_found "Ticket not found")
    unfolding request portal_messages Service.list_messages
    portal_messages_no_ticket f = rw (e, f) refl

    portal_messages_read :
        (t : Ticket)
        → get_linked_ticket l ticket_id s.stored ≡ some t
        → (request (portal_messages user link_id ticket_id) s).0
          ≡ ok (messages_of l.workspace_id ticket_id s.stored)
    unfolding request portal_messages Service.list_messages
    portal_messages_read t f = rw (e, f) refl

-- A session whose database has the same links and tickets.
portal_messages-later :
    (user link_id ticket_id : ℕ) (s : Session) (d : Db) (now next_id : ℕ) (l : ClientUserLink)
    (t : Ticket)
    → d.client_user_links ≡ s.stored.client_user_links
    → d.tickets ≡ s.stored.tickets
    → get_link user link_id s.stored ≡ some l
    → get_linked_ticket l ticket_id s.stored ≡ some t
    → (request
        (portal_messages user link_id ticket_id)
        (record { stored = d; work = d; now = now; next_id = next_id })).0
      ≡ ok (messages_of l.workspace_id ticket_id d)
unfolding get_link get_linked_ticket
portal_messages-later user link_id ticket_id s d now next_id l t links tickets e f =
    portal_messages_read user link_id ticket_id _ l (rw links e) t (rw tickets f)

-- The conversation that a first message opens.
abbrev new_web : Session → ℕ → ClientUserLink → Ticket → Conversation
new_web s user l t = record {
  id = s.next_id;
  workspace_id = l.workspace_id;
  ticket_id = t.id;
  created_by_user_id = user;
  channel = ConversationChannel.web;
  subject = t.subject;
  external_thread_ref = none;
  created_at = s.now;
}

-- If messages belong to conversations with ids below the supply and were created before the request,
-- a message that an account sends about a ticket is the last of the ticket's messages, by
-- `created_at`, when the account reads them again, signed by the account and after the same messages
-- as before. The message is refused exactly as the reading
-- is, and then nothing is stored.
pub portal_add_message-Sends :
    (user link_id ticket_id : ℕ) (body : String) (s : Session)
    → All (λ (m : Message). m.conversation_id < s.next_id) s.stored.messages
    → All (λ (m : Message). m.created_at < s.now) s.stored.messages
    → Sends user link_id ticket_id body s
        (request (portal_add_message user link_id ticket_id body) s)
unfolding request portal_add_message Service.add_message
portal_add_message-Sends user link_id ticket_id body s old earlier =
    elim (Option-cases (get_link user link_id s.stored)) [
      | inl e ↦ rw e (portal_messages_no_link user link_id ticket_id s e, refl)
      | inr (l, e) ↦ elim (Option-cases (get_linked_ticket l ticket_id s.stored)) [
        | inl f ↦ rw (e, f) (portal_messages_no_ticket user link_id ticket_id s l e f, refl)
        | inr (t, f) ↦
            let read = portal_messages_read user link_id ticket_id s l e t f in
            let same = get_linked_ticket-id l ticket_id t s.stored f in
            elim (Option-cases (web_conversation l.workspace_id t.id s.stored)) [
              | inl g ↦
                  let opened : Db = record s.stored {
                    conversations = push (new_web s user l t) s.stored.conversations;
                  } in
                  rw (e, f, g)
                    (
                      refl,
                      refl,
                      refl,
                      _,
                      read,
                      portal_messages-later user link_id ticket_id s _ _ _ l t refl refl e f
                          ∙ ap ok (
                              messages_of-same l.workspace_id ticket_id
                                (record opened { messages = push _ opened.messages }) _ refl refl
                              ∙ messages_of-push l.workspace_id ticket_id _ opened refl
                                  (new_parent l.workspace_id ticket_id (new_web s user l t)
                                    s.stored.conversations refl same)
                                  earlier
                              ∙ ap (push _) (
                                  messages_of-conversation l.workspace_id ticket_id
                                    (new_web s user l t) s.stored old)),
                    )
              | inr (c, g) ↦
                  let parent = web_conversation-parent l.workspace_id t.id c s.stored g in
                  rw (e, f, g)
                    (
                      refl,
                      refl,
                      refl,
                      _,
                      read,
                      portal_messages-later user link_id ticket_id s _ _ _ l t refl refl e f
                          ∙ ap ok (
                              messages_of-same l.workspace_id ticket_id
                                (record s.stored { messages = push _ s.stored.messages }) _ refl
                                refl
                              ∙ messages_of-push l.workspace_id ticket_id _ s.stored refl
                                  (subst
                                    (λ i.
                                      any (is_parent l.workspace_id i c.id) s.stored.conversations
                                      ≡ true)
                                    same parent)
                                  earlier),
                    )
            ]
      ]
    ]
