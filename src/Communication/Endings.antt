-- ===== src/Communication/Endings.antt =====
-- services/communication_service.py takes no other step than those of Change.antt.
use support_endpoint.Prelude.{
  ℕ, ◌≡◌, refl, Bool, true, String, Option, none, some, List, arith, inl, inr, Option-cases,
  any_of-find, find_sound, ◌==◌, ◌&&◌, is_some,
}
use support_endpoint.Models.{Conversation, ConversationChannel, Message, InternalNote}
use support_endpoint.Session.{Db, Session, Result, ok, err, request}
use support_endpoint.Ticket.Repo.{get_in_workspace}
use support_endpoint.Communication.Filename.{FileTools}
use support_endpoint.Communication.Limits.{validate_attachment-cases}
use support_endpoint.Communication.Attachments
use support_endpoint.Communication.Attachments.{AttachmentSettings, get_workspace}
use support_endpoint.Communication.Service
use support_endpoint.Communication.Repo.{get_conversation, get_message, get_note}
use support_endpoint.Communication.Change.{Change, Hangs}

abbrev opened : Session → Session
opened s = record s { work = s.stored }

-- A message that a conversation of the workspace has, and a note that one of its tickets has.
message-Hangs :
    (w conversation i : ℕ) (m : Message) (d : Db)
    → get_message w conversation i d ≡ some m
    → Hangs w (some m.id) none d
unfolding get_message
message-Hangs w conversation i m d e =
    let test : Message → Bool =
      λ x. x.id == i && x.workspace_id == w && x.conversation_id == conversation in
    let sound = find_sound test d.messages m e in
    any_of-find test (λ x. x.id == m.id && x.workspace_id == w) d.messages m
      (λ x h. ground (arith, sound, h)) e

note-Hangs :
    (w ticket i : ℕ) (n : InternalNote) (d : Db)
    → get_note w ticket i d ≡ some n
    → Hangs w none (some n.id) d
unfolding get_note
note-Hangs w ticket i n d e =
    let test : InternalNote → Bool =
      λ x. x.id == i && x.workspace_id == w && x.ticket_id == ticket in
    let sound = find_sound test d.internal_notes n e in
    any_of-find test (λ x. x.id == n.id && x.workspace_id == w) d.internal_notes n
      (λ x h. ground (arith, sound, h)) e

module _ (tools : FileTools) (settings : AttachmentSettings) where
  -- How a request of `actor` in the workspace ends: with one change, or with nothing stored.
  abbrev pub Ends : {A : Type 0} → ℕ → ℕ → Session → Result A × Session → Type 0
  Ends w actor s (ok x, s') = Change tools settings w actor s.stored s'.stored
  Ends w actor s (err e, s') = s'.stored ≡ s.stored

  module _ (w ticket actor : ℕ) (s : Session) where
    pub create_conversation-Ends :
        (channel : ConversationChannel) (subject : String) (ref : Option String)
        → Ends w actor s
            (request (Service.create_conversation w ticket actor channel subject ref) s)
    unfolding Service.create_conversation request
    create_conversation-Ends channel subject ref =
        elim (Option-cases (get_in_workspace w ticket s.stored)) [
          | inl e ↦ rw e refl
          | inr (t, e) ↦ rw e (Change.conversation_added _ _ refl refl (rw e refl) refl)
        ]

    pub create_note-Ends :
        (body : String) → Ends w actor s (request (Service.create_note w ticket actor body) s)
    unfolding Service.create_note request
    create_note-Ends body = elim (Option-cases (get_in_workspace w ticket s.stored)) [
      | inl e ↦ rw e refl
      | inr (t, e) ↦ rw e (Change.note_added _ _ refl refl (rw e refl) refl)
    ]

    get_conversation-id :
        (i : ℕ) (c : Conversation) (d : Db) → get_conversation w ticket i d ≡ some c → c.id ≡ i
    unfolding get_conversation
    get_conversation-id i c d e =
        let sound =
          find_sound
            (λ (x : Conversation). x.id == i && x.workspace_id == w && x.ticket_id == ticket)
            d.conversations c e in
        ground arith

    get_conversation_self :
        (i : ℕ) (c : Conversation) (d : Db)
        → get_conversation w ticket i d ≡ some c
        → is_some (get_conversation w ticket c.id d) ≡ true
    get_conversation_self i c d e = rw (get_conversation-id i c d e, e) refl

    pub create_outbound_message-Ends :
        (conversation : ℕ) (body : String)
        → Ends w actor s
            (request (Service.create_outbound_message w ticket conversation actor body) s)
    unfolding Service.create_outbound_message request
    create_outbound_message-Ends conversation body =
        elim (Option-cases (get_in_workspace w ticket s.stored)) [
          | inl e ↦ rw e refl
          | inr (t, e) ↦ elim (Option-cases (get_conversation w ticket conversation s.stored)) [
            | inl f ↦ rw (e, f) refl
            | inr (c, f) ↦
                rw (e, f)
                  (Change.message_added _ ticket _ refl (inl (refl, refl))
                    (get_conversation_self conversation c s.stored f) refl)
          ]
        ]

    pub create_inbound_message-Ends :
        (conversation : ℕ) (body : String) (ref : Option String)
        → Ends w actor s
            (request (Service.create_inbound_message w ticket conversation actor body ref) s)
    unfolding Service.create_inbound_message request
    create_inbound_message-Ends conversation body ref =
        elim (Option-cases (get_in_workspace w ticket s.stored)) [
          | inl e ↦ rw e refl
          | inr (t, e) ↦ elim (Option-cases (get_conversation w ticket conversation s.stored)) [
            | inl f ↦ rw (e, f) refl
            | inr (c, f) ↦
                rw (e, f)
                  (Change.message_added _ ticket _ refl (inr (refl, refl))
                    (get_conversation_self conversation c s.stored f) refl)
          ]
        ]

    pub attach_to_message-Ends :
        (conversation message : ℕ) (filename : List ℕ) (content_type : String) (content : List ℕ)
        → Ends w actor s (
            request
              (Attachments.attach_to_message tools settings w ticket conversation message actor
                filename content_type content)
              s)
    unfolding Attachments.attach_to_message request
    attach_to_message-Ends conversation message filename content_type content =
        elim (Option-cases (get_in_workspace w ticket s.stored)) [
          | inl e ↦ rw e refl
          | inr (t, e) ↦ elim (Option-cases (get_conversation w ticket conversation s.stored)) [
            | inl f ↦ rw (e, f) refl
            | inr (c, f) ↦ elim (Option-cases (get_message w c.id message s.stored)) [
              | inl g ↦ rw (e, f, g) refl
              | inr (m, g) ↦
                  elim (validate_attachment-cases tools settings w filename content (opened s)) [
                    | inr (x, refused) ↦ rw (e, f, g, refused) refl
                    | inl (name, passed, safe, nonempty, capped, within) ↦
                        rw (e, f, g, passed)
                          (Change.attached _ _ refl
                            (record {
                              hung = message-Hangs w c.id message m s.stored g;
                              safe = safe;
                              measured = refl;
                              hashed = refl;
                              nonempty = nonempty;
                              capped = capped;
                              within = within;
                            })
                            refl)
                  ]
            ]
          ]
        ]

    pub attach_to_note-Ends :
        (note : ℕ) (filename : List ℕ) (content_type : String) (content : List ℕ)
        → Ends w actor s (
            request
              (Attachments.attach_to_note tools settings w ticket note actor filename content_type
                content)
              s)
    unfolding Attachments.attach_to_note request
    attach_to_note-Ends note filename content_type content =
        elim (Option-cases (get_in_workspace w ticket s.stored)) [
          | inl e ↦ rw e refl
          | inr (t, e) ↦ elim (Option-cases (get_note w ticket note s.stored)) [
            | inl g ↦ rw (e, g) refl
            | inr (n, g) ↦
                elim (validate_attachment-cases tools settings w filename content (opened s)) [
                  | inr (x, refused) ↦ rw (e, g, refused) refl
                  | inl (name, passed, safe, nonempty, capped, within) ↦
                      rw (e, g, passed)
                        (Change.attached _ _ refl
                          (record {
                            hung = note-Hangs w ticket note n s.stored g;
                            safe = safe;
                            measured = refl;
                            hashed = refl;
                            nonempty = nonempty;
                            capped = capped;
                            within = within;
                          })
                          refl)
                ]
          ]
        ]
