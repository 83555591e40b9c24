-- ===== src/Communication/Quota.antt =====
-- The storage quota of a workspace over any run of requests.
use support_endpoint.Prelude.{
  ℕ, ◌+◌, ◌≤◌, ◌≡◌, refl, subst, List, [], ◌∷◌, arith, push, select-push, ◌==◌, Bool-cases, inl,
  inr, if◌then◌else◌,
}
use support_endpoint.Models.{Attachment}
use support_endpoint.Session.{Db, Session}
use support_endpoint.Communication.Filename.{FileTools}
use support_endpoint.Communication.Attachments.{AttachmentSettings}
use support_endpoint.Communication.Repo.{total_size, attachment_usage_bytes}
use support_endpoint.Communication.Change.{Change}
use support_endpoint.Communication.Calls.{CommunicationRequest, serve_communication}
use support_endpoint.Communication.Routes.{serve_communication_keeps}

total_size-push :
    (a : Attachment) (xs : List Attachment) → total_size (push a xs) ≡ total_size xs + a.size_bytes
unfolding total_size
total_size-push a [] = omega arith
total_size-push a (x ∷ xs) = omega (arith, total_size-push a xs)

attachment_usage_bytes-push :
    (w : ℕ) (a : Attachment) (d : Db)
    → attachment_usage_bytes w (record d { attachments = push a d.attachments }) ≡ (
        if a.workspace_id == w
        then attachment_usage_bytes w d + a.size_bytes
        else attachment_usage_bytes w d)
unfolding attachment_usage_bytes
attachment_usage_bytes-push w a d =
    rw (select-push (λ (x : Attachment). x.workspace_id == w) a d.attachments)
      (elim (Bool-cases (a.workspace_id == w)) [
        | inl e ↦ rw e (total_size-push a _)
        | inr e ↦ rw e refl
      ])

usage_after-le :
    (w v quota : ℕ) (a : Attachment) (d : Db)
    → a.workspace_id ≡ w
    → attachment_usage_bytes w d + a.size_bytes ≤ quota
    → attachment_usage_bytes v d ≤ quota
    → attachment_usage_bytes v (record d { attachments = push a d.attachments }) ≤ quota
usage_after-le w v quota a d here within h =
    rw (attachment_usage_bytes-push v a d) (elim (Bool-cases (a.workspace_id == v)) [
      | inl e ↦
          let same : w ≡ v = ground arith in
          rw e (subst (λ x. attachment_usage_bytes x d + a.size_bytes ≤ quota) same within)
      | inr e ↦ rw e h
    ])

module _ (settings : AttachmentSettings) where
  abbrev pub WithinQuota : Db → Type 0
  WithinQuota d = (w : ℕ) → attachment_usage_bytes w d ≤ settings.attachment_workspace_quota_bytes

  module _ (tools : FileTools) where
    Change-WithinQuota :
        (w actor : ℕ) (d d' : Db)
        → Change tools settings w actor d d'
        → WithinQuota d
        → WithinQuota d'
    unfolding attachment_usage_bytes
    Change-WithinQuota w actor d d' (Change.conversation_added c e _ _ _ same) h v = rw same (h v)
    Change-WithinQuota w actor d d' (Change.message_added m t e _ _ _ same) h v = rw same (h v)
    Change-WithinQuota w actor d d' (Change.note_added n e _ _ _ same) h v = rw same (h v)
    Change-WithinQuota w actor d d' (Change.attached a e here fits same) h v =
        rw same
          (usage_after-le w v settings.attachment_workspace_quota_bytes a d here fits.within (h v))

    -- If every workspace's attachments are within its quota, they are after any run of requests
    -- about conversations, messages, notes and attachments, whoever sends them.
    pub serve_communication-WithinQuota :
        (rs : List CommunicationRequest) (s : Session)
        → WithinQuota s.stored
        → WithinQuota (serve_communication tools settings rs s).stored
    serve_communication-WithinQuota =
        serve_communication_keeps tools settings WithinQuota Change-WithinQuota
