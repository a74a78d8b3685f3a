-- ===== src/Web/Approval/Mismatch.antt =====
-- The digest of the web app against the digest of the gateway.
use pooli.Base.{
  Bool, false, Text, text_eq_iff, All, ◌≡◌, ◌≢◌, sym, ◌∙◌, ap, arith, length, Bool-cases, inl, inr,
}
use pooli.Domain.Platform.{Platform}
use pooli.Domain.Types.{MessageDraftPayload}
use pooli.Domain.Machine.{canonical, digest_payload}
use pooli.Domain.Canonical.{stringify}
use pooli.Domain.Canonical.Reader.{IsUnits}
use pooli.Domain.Canonical.Injective.{stringify-injective}
use pooli.Web.Approval.{
  View, Draft, web_canonical, draft_of, digest_message_draft_payload, digest_ok, can_approve,
}

-- The gateway's array has six elements, the web app's has five.
canonical-neq :
    (p : MessageDraftPayload) (d : Draft)
    → All IsUnits (canonical p)
    → All IsUnits (web_canonical d)
    → stringify (canonical p) ≢ stringify (web_canonical d)
canonical-neq p d hp hd e =
    let lengths : 6 ≡ 5 = ap length (stringify-injective (canonical p) (web_canonical d) hp hd e) in
    omega (arith, lengths)

-- If the texts are made of 16-bit units, the digest of a proposal in the merchant's sheet is the
-- one that the gateway makes of some payload, and SHA-256 does not collide on the two texts that
-- the sheet and the gateway digest, then the sheet, once it has computed its digest, does not let
-- the merchant approve the proposal, whatever body and code stand in its fields.
pub can_approve_never :
    (env : Platform) (payload : MessageDraftPayload) (proposal : View) (draft_body link_code : Text)
    (busy : Bool)
    → All IsUnits (canonical payload)
    → All IsUnits (web_canonical (draft_of proposal draft_body))
    → (env.sha256_hex (stringify (web_canonical (draft_of proposal draft_body)))
          ≡ env.sha256_hex (stringify (canonical payload))
        → stringify (web_canonical (draft_of proposal draft_body)) ≡ stringify (canonical payload))
    → proposal.payload_digest ≡ digest_payload env payload
    → can_approve env proposal draft_body link_code busy ≡ false
unfolding can_approve digest_ok digest_message_draft_payload digest_payload
can_approve_never env payload proposal draft_body link_code busy hp hd collision_free made =
    elim (Bool-cases (digest_ok env proposal draft_body)) [
      | inr differs ↦ ground arith
      | inl same ↦ absurd (
          canonical-neq payload (draft_of proposal draft_body) hp hd
            (sym (collision_free ((text_eq_iff _ proposal.payload_digest).0 same ∙ made))))
    ]
