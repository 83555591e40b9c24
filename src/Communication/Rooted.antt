-- ===== src/Communication/Rooted.antt =====
-- Where conversations, messages, notes and attachments stand, over any run of requests.
use support_endpoint.Prelude.{
  ℕ, ◌≤◌, ◌<◌, ◌≡◌, sym, subst, true, List, ◌&&◌, arith, length, any, any-push, All, All-push,
  All-map, ◌==◌, is_some, any_of-find, Option, none, some, Option-cases, inl, inr,
}
use support_endpoint.Models.{Conversation, Message, InternalNote, Attachment}
use support_endpoint.Session.{Db, Session}
use support_endpoint.Ticket.Repo.{get_in_workspace}
use support_endpoint.Communication.Filename.{FileTools}
use support_endpoint.Communication.Names.{IsSafe}
use support_endpoint.Communication.Attachments.{AttachmentSettings}
use support_endpoint.Communication.Repo.{get_conversation}
use support_endpoint.Communication.Change.{Change, Hangs}
use support_endpoint.Communication.Calls.{CommunicationRequest, serve_communication}
use support_endpoint.Communication.Routes.{serve_communication_keeps}

-- The workspace has the ticket, or the conversation.
abbrev pub HasTicket : ℕ → ℕ → Db → Type 0
HasTicket w ticket d = is_some (get_in_workspace w ticket d) ≡ true

abbrev pub HasConversation : ℕ → ℕ → Db → Type 0
HasConversation w i d =
    any (λ (c : Conversation). c.id == i && c.workspace_id == w) d.conversations ≡ true

module _ (tools : FileTools) (settings : AttachmentSettings) where
  abbrev pub IsKept : Db → Attachment → Type 0
  IsKept d a =
      Hangs a.workspace_id a.message_id a.internal_note_id d
      × IsSafe tools a.filename
      × (a.size_bytes ≡ length a.content)
      × (0 < a.size_bytes)
      × (a.size_bytes ≤ settings.attachment_max_bytes)

  -- Every row stands in one workspace with what it belongs to, and every attachment belongs to one
  -- message or to one note, is not empty, is within the limit and has a safe name.
  pub record IsRooted (d : Db) : Type 0 where
    pub conversations :
        All (λ (c : Conversation). HasTicket c.workspace_id c.ticket_id d) d.conversations
    pub messages :
        All (λ (m : Message). HasConversation m.workspace_id m.conversation_id d) d.messages
    pub notes : All (λ (n : InternalNote). HasTicket n.workspace_id n.ticket_id d) d.internal_notes
    pub attachments : All (IsKept d) d.attachments

  get_conversation-HasConversation :
      (w ticket i : ℕ) (d : Db)
      → is_some (get_conversation w ticket i d) ≡ true
      → HasConversation w i d
  unfolding get_conversation
  get_conversation-HasConversation w ticket i d h =
      elim (Option-cases (get_conversation w ticket i d)) [
        | inl e ↦ absurd (cc)
        | inr (c, e) ↦
            any_of-find
              (λ (x : Conversation). x.id == i && x.workspace_id == w && x.ticket_id == ticket)
              (λ x. x.id == i && x.workspace_id == w) d.conversations c (λ x k. ground arith) e
      ]

  -- What attachments hang on is never taken away.
  IsKept-later :
      (d d' : Db)
      → ((i w : ℕ)
          → any (λ (m : Message). m.id == i && m.workspace_id == w) d.messages ≡ true
          → any (λ (m : Message). m.id == i && m.workspace_id == w) d'.messages ≡ true)
      → ((i w : ℕ)
          → any (λ (n : InternalNote). n.id == i && n.workspace_id == w) d.internal_notes ≡ true
          → any (λ (n : InternalNote). n.id == i && n.workspace_id == w) d'.internal_notes ≡ true)
      → (a : Attachment) → IsKept d a
      → IsKept d' a
  IsKept-later d d' messages notes a k =
      (still a.message_id a.internal_note_id k.0, k.1, k.2, k.3, k.4)
    where
      still :
          (message note : Option ℕ)
          → Hangs a.workspace_id message note d
          → Hangs a.workspace_id message note d'
      still (some i) none h = messages i a.workspace_id h
      still none (some i) h = notes i a.workspace_id h
      still none none h = h
      still (some i) (some j) h = h

  Change-IsRooted :
      (w actor : ℕ) (d d' : Db) → Change tools settings w actor d d' → IsRooted d → IsRooted d'
  unfolding get_in_workspace
  Change-IsRooted w actor d d' (Change.conversation_added c e here _ holds same) h =
      subst IsRooted (sym same) (record {
        conversations = All-push _ c d.conversations h.conversations (rw here holds);
        messages =
            All-map d.messages
              (λ m.
                any-push
                  (λ (x : Conversation).
                    x.id == m.conversation_id && x.workspace_id == m.workspace_id)
                  c d.conversations)
              h.messages;
        notes = h.notes;
        attachments =
            All-map d.attachments (IsKept-later d _ (λ i v k. k) (λ i v k. k)) h.attachments;
      })
  Change-IsRooted w actor d d' (Change.message_added m t e here _ holds same) h =
      subst IsRooted (sym same) (record {
        conversations = h.conversations;
        messages =
            All-push _ m d.messages h.messages
              (rw here (get_conversation-HasConversation w t m.conversation_id d holds));
        notes = h.notes;
        attachments =
            All-map d.attachments
              (IsKept-later d _
                (λ i v. any-push (λ (x : Message). x.id == i && x.workspace_id == v) m d.messages)
                (λ i v k. k))
              h.attachments;
      })
  Change-IsRooted w actor d d' (Change.note_added n e here _ holds same) h =
      subst IsRooted (sym same) (record {
        conversations = h.conversations;
        messages = h.messages;
        notes = All-push _ n d.internal_notes h.notes (rw here holds);
        attachments =
            All-map d.attachments
              (IsKept-later d _ (λ i v k. k)
                (λ i v.
                  any-push (λ (x : InternalNote). x.id == i && x.workspace_id == v) n
                    d.internal_notes))
              h.attachments;
      })
  Change-IsRooted w actor d d' (Change.attached a e here fits same) h =
      subst IsRooted (sym same) (record {
        conversations = h.conversations;
        messages = h.messages;
        notes = h.notes;
        attachments =
            All-push _ a d.attachments
              (All-map d.attachments (IsKept-later d _ (λ i v k. k) (λ i v k. k)) h.attachments)
              (IsKept-later d _ (λ i v k. k) (λ i v k. k) a
                (
                  subst (λ v. Hangs v a.message_id a.internal_note_id d) (sym here) fits.hung,
                  fits.safe,
                  fits.measured,
                  fits.nonempty,
                  fits.capped,
                ));
      })

  -- If every conversation and note belongs to a ticket of its own workspace, every message to a
  -- conversation of its own workspace, and every attachment to exactly one message or note of its
  -- own workspace, with a safe name and within the limit, it is so after any run of requests about
  -- conversations, messages, notes and attachments.
  pub serve_communication-IsRooted :
      (rs : List CommunicationRequest) (s : Session)
      → IsRooted s.stored
      → IsRooted (serve_communication tools settings rs s).stored
  serve_communication-IsRooted = serve_communication_keeps tools settings IsRooted Change-IsRooted
