-- ===== src/Domain/Machine/Tamper.antt =====
-- What `confirm` of state-machine.ts does with the digest of another payload than the proposal's.
use pooli.Base.{ℕ, ◌+◌, ◌*◌, ◌<◌, Text, trim, All, ◌≡◌, ◌↔◌, refl, ap}
use pooli.Domain.Platform.{Platform, IsStandard}
use pooli.Domain.Types.{MessageDraftPayload, Proposal, ok}
use pooli.Domain.Canonical.{stringify}
use pooli.Domain.Canonical.Reader.{IsUnits}
use pooli.Domain.Canonical.Injective.{stringify-injective}
use pooli.Domain.Machine
use pooli.Domain.Machine.{
  canonical, digest_payload, ConfirmInput, CreateInput, create_proposal, hash_link_code,
}
use pooli.Domain.Machine.Branches.{confirm_ok, confirm_of_IsApproved}
use pooli.Domain.Machine.Digest.{safe_equal_hex-sha256_iff}

-- Every field of the payload is a text of 16-bit units.
pub record IsPayloadUnits (p : MessageDraftPayload) : Type 0 where
  pub order_id : IsUnits p.order_id
  pub order_slug : IsUnits p.order_slug
  pub merchant_id : IsUnits p.merchant_id
  pub body : IsUnits p.body
  pub locale : IsUnits p.locale
  pub payment_status : IsUnits p.payment_status

canonical-IsUnits : (p : MessageDraftPayload) → IsPayloadUnits p → All IsUnits (canonical p)
canonical-IsUnits p u =
    (u.order_id, (u.order_slug, (u.merchant_id, (u.body, (u.locale, (u.payment_status, tt))))))

canonical-injective : (p q : MessageDraftPayload) → canonical p ≡ canonical q → p ≡ q
canonical-injective p q e = cc

-- Different payloads have different canonical texts.
canonical_text-injective :
    (p q : MessageDraftPayload)
    → IsPayloadUnits p
    → IsPayloadUnits q
    → stringify (canonical p) ≡ stringify (canonical q)
    → p ≡ q
canonical_text-injective p q u v e = canonical-injective p q (
    stringify-injective (canonical p) (canonical q) (canonical-IsUnits p u) (canonical-IsUnits q v)
      e)

-- With a standard platform, payloads whose fields are texts of 16-bit units, and no collision of
-- SHA-256 on the two canonical texts: a confirmation of a new proposal with the digest of the
-- payload that was seen succeeds exactly if it is before the deadline, the code has the digest of
-- the delivered code, both up to outer spaces and case, and the payload that was seen is the
-- proposal's, in every field.
pub confirm-create_proposal_iff :
    (env : Platform) (made : CreateInput) (seen : MessageDraftPayload) (typed : Text) (now wall : ℕ)
    → IsStandard env
    → IsPayloadUnits made.payload
    → IsPayloadUnits seen
    → (env.sha256_hex (stringify (canonical seen))
          ≡ env.sha256_hex (stringify (canonical made.payload))
        → stringify (canonical seen) ≡ stringify (canonical made.payload))
    → ((q : Proposal) × (Machine.confirm env
            (create_proposal env made)
            (record { link_code = typed; seen_digest = digest_payload env seen; now = now })
            wall
          ≡ ok q))
      ↔ ((now < made.now + made.ttl_seconds * 1000)
          × (env.sha256_hex (env.to_upper (trim typed))
              ≡ env.sha256_hex (env.to_upper (trim made.link_code)))
          × (seen ≡ made.payload))
unfolding create_proposal digest_payload hash_link_code
confirm-create_proposal_iff env made seen typed now wall std u v collision_free = (
  λ (q, h).
      let (a, _) = confirm_ok env (create_proposal env made) _ wall h in
      (
        a.early,
        (safe_equal_hex-sha256_iff env _ _ std).0 a.code,
        canonical_text-injective seen made.payload v u
            (collision_free ((safe_equal_hex-sha256_iff env _ _ std).0 a.seen)),
      ),
  λ (early, code, same). (
    _,
    confirm_of_IsApproved env (create_proposal env made) _ wall (record {
      pending = refl;
      early = early;
      code = (safe_equal_hex-sha256_iff env _ _ std).1 code;
      seen =
          (safe_equal_hex-sha256_iff env _ _ std).1
            (ap (λ p. env.sha256_hex (stringify (canonical p))) same);
    }),
  ),
)
