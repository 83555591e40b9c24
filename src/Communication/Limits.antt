-- ===== src/Communication/Limits.antt =====
-- The limits on uploads: the outcomes of `_validate_attachment`.
use support_endpoint.Prelude.{
  ℕ, ◌+◌, ◌≤◌, ◌<◌, ◌≡◌, refl, false, List, [], ◌∷◌, arith, inl, inr, ◌⊎◌, Option-cases, Bool-cases,
  length, ltb,
}
use support_endpoint.Session.{Session, ok, err, Error, not_found, validation}
use support_endpoint.Communication.Filename.{FileTools, is_empty}
use support_endpoint.Communication.Names.{IsSafe, safe_filename-cases}
use support_endpoint.Communication.Attachments.{
  AttachmentSettings, get_workspace, validate_attachment,
}
use support_endpoint.Communication.Repo.{attachment_usage_bytes}

module _ (tools : FileTools) (settings : AttachmentSettings) where
  -- How the check of an upload ends: it refuses, or the file is within both limits.
  pub validate_attachment-cases :
      (w : ℕ) (filename content : List ℕ) (s : Session)
      → ((name : List ℕ) × (validate_attachment tools settings w filename content s ≡ (ok name, s))
          × IsSafe tools name
          × (0 < length content)
          × (length content ≤ settings.attachment_max_bytes)
          × (attachment_usage_bytes w s.work + length content
              ≤ settings.attachment_workspace_quota_bytes))
        ⊎ ((e : Error) × (validate_attachment tools settings w filename content s ≡ (err e, s)))
  unfolding validate_attachment
  validate_attachment-cases w filename content s = elim (safe_filename-cases tools filename s) [
    | inr (e, refused) ↦ inr (e, rw refused refl)
    | inl (name, passed, safe) ↦ elim (Bool-cases (is_empty content)) [
      | inl h ↦ inr (validation "attachment is empty", rw (passed, h) refl)
      | inr h ↦ elim (Bool-cases (ltb settings.attachment_max_bytes (length content))) [
        | inl k ↦ inr (
          validation "attachment exceeds the configured per-file size limit",
          rw (passed, h, k) refl,
        )
        | inr k ↦ elim (Option-cases (get_workspace w s.work)) [
          | inl m ↦ inr (not_found "Workspace not found", rw (passed, h, k, m) refl)
          | inr (row, m) ↦
              elim (Bool-cases (
                ltb settings.attachment_workspace_quota_bytes
                  (attachment_usage_bytes w s.work + length content))) [
                    | inl q ↦ inr (
                      validation "workspace attachment storage quota exceeded",
                      rw (passed, h, k, m, q) refl,
                    )
                    | inr q ↦ inl (
                      name,
                      rw (passed, h, k, m, q) refl,
                      safe,
                      length_pos content h,
                      ground arith,
                      ground arith,
                    )
                  ]
        ]
      ]
    ]
  ]
    where
      length_pos : (xs : List ℕ) → is_empty xs ≡ false → 0 < length xs
      length_pos [] h = cc
      length_pos (x ∷ xs) h = omega arith
