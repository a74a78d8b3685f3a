-- ===== src/Examples/Gateway.antt =====
-- The theorems about the domain of the gateway at concrete inputs.
use pooli.Base.{
  true, false, [], some, codes, ◌≡◌, inr, refl, arith, All, trim, trim_start, trim_end, is_space,
  every, any, text_eq, length, ◌≤◌,
}
use pooli.Domain.Types.{expired_code, error_code, ok}
use pooli.Domain.Machine
use pooli.Domain.Machine.{
  safe_equal_hex, execution_reference_of, applied, create_proposal, expire_if_due, mark_executed,
  guard, execution_prefix,
}
use pooli.Domain.Machine.Branches.{confirm_refused_iff}
use pooli.Domain.Machine.History.{terminal_absorbs, execution_reference_of-mark_executed}
use pooli.Domain.Machine.Digest.{safe_equal_hex-sha256_iff}
use pooli.Base.{
  ◌<◌, Bool-cases, inl, ltb, every-All, text_eq_refl, text_eq_iff, ap, ◌==◌, ◌↔◌, replicate,
  if◌then◌else◌, Text,
}
use pooli.Domain.Platform.{Platform, IsStandard, is_hex_lower}
use pooli.Domain.Types.{MessageDraftPayload, Proposal}
use pooli.Domain.Canonical.{stringify}
use pooli.Domain.Machine.{canonical, digest_payload}
use pooli.Domain.Machine.Tamper.{IsPayloadUnits, confirm-create_proposal_iff}
use pooli.Domain.Validation.{validate_message_draft, is_order_id, is_merchant_id, is_slug, has}
use pooli.Domain.Validation.Sanitize.{sanitize_body, collapse}
use pooli.Domain.Validation.Lint.{lint_false_paid_claim, claims_paid, claims_paid_from, claim_here}
use pooli.Domain.Types.{is_terminal}
use pooli.Domain.Validation.Laws.{validate_body, validate_idempotent}
use pooli.Examples.{
  creation, env, env-IsStandard, every-IsUnits, draft, proposal, approved, carried_out,
}

confirm_refused_iff_example :
    error_code (
      Machine.confirm env proposal
        (record { link_code = codes "ABC234"; seen_digest = []; now = 301000 })
        301000)
    ≡ some expired_code
unfolding create_proposal
confirm_refused_iff_example =
    (confirm_refused_iff env proposal
        (record { link_code = codes "ABC234"; seen_digest = []; now = 301000 }) 301000).0.1
      (inr (refl, omega arith))

no_spaces : All (λ c. is_space c ≡ false) (codes "sim_aaaaaaaaaaaa")
unfolding is_space
no_spaces = (
  refl,
  (
    refl,
    (
      refl,
      (
        refl,
        (
          refl,
          (
            refl,
            (refl, (refl, (refl, (refl, (refl, (refl, (refl, (refl, (refl, (refl, tt)))))))))),
          ),
        ),
      ),
    ),
  ),
)

execution_reference_of-mark_executed_example :
    execution_reference_of carried_out ≡ some (codes "sim_aaaaaaaaaaaa")
unfolding mark_executed guard applied create_proposal
execution_reference_of-mark_executed_example =
    execution_reference_of-mark_executed approved (codes "sim_aaaaaaaaaaaa") 3000 (λ e. cc)
      (no_spaces) refl

-- A platform whose digest is 64 letters b for the canonical text of the draft, and else letters a.
abbrev telling_env : Platform
telling_env = record env {
  sha256_hex =
      λ s. if text_eq s (stringify (canonical draft)) then replicate 64 b'b' else replicate 64 b'a';
}

telling_env-IsStandard : IsStandard telling_env
unfolding every
telling_env-IsStandard = record {
  lower_ascii = λ s h. refl;
  upper_ascii = λ s h. refl;
  digest_length = λ s. ground arith;
  digest_hex = λ s. elim (Bool-cases (text_eq s (stringify (canonical draft)))) [
    | inl same ↦ rw same (every-All is_hex_lower (replicate 64 b'b') refl)
    | inr other ↦ rw other (every-All is_hex_lower (replicate 64 b'a') refl)
  ];
}

abbrev edited : MessageDraftPayload
edited = record draft { body = codes "ho" }

no_collision :
    (s : Text)
    → telling_env.sha256_hex s ≡ telling_env.sha256_hex (stringify (canonical draft))
    → s ≡ stringify (canonical draft)
unfolding every
no_collision s e = elim (Bool-cases (text_eq s (stringify (canonical draft)))) [
  | inl same ↦ (text_eq_iff _ _).0 same
  | inr other ↦
      let letters : replicate 64 b'a' ≡ replicate 64 b'b' =
        rw (other, text_eq_refl (stringify (canonical draft))) at e in
      let heads : false ≡ true = ap (every (λ c. c == b'b')) letters in absurd (cc heads)
]

payload_units :
    (p : MessageDraftPayload)
    → every (every (λ c. ltb c 65536)) (canonical p) ≡ true
    → IsPayloadUnits p
payload_units p h =
    let (a, (b, (c, (d, (e, (f, _)))))) = every-IsUnits (canonical p) h in
    record {
      order_id = a;
      order_slug = b;
      merchant_id = c;
      body = d;
      locale = e;
      payment_status = f;
    }

-- The digest of another body does not confirm the draft.
confirm-create_proposal_iff_example :
    ((q : Proposal) × (Machine.confirm telling_env
          (create_proposal telling_env creation)
          (record {
            link_code = codes "ABC234";
            seen_digest = digest_payload telling_env edited;
            now = 2000;
          })
          2000
        ≡ ok q))
    ↔ ((2000 < 301000)
        × (telling_env.sha256_hex (telling_env.to_upper (trim (codes "ABC234")))
            ≡ telling_env.sha256_hex (telling_env.to_upper (trim (codes "ABC234"))))
        × (edited ≡ draft))
unfolding every
confirm-create_proposal_iff_example =
    confirm-create_proposal_iff telling_env creation edited (codes "ABC234") 2000 2000
      telling_env-IsStandard (payload_units draft refl) (payload_units edited refl) (no_collision _)

pub draft_accepted : validate_message_draft env draft ≡ ok draft
unfolding validate_message_draft trim trim_start trim_end is_space is_order_id is_merchant_id
    is_slug every has any text_eq sanitize_body collapse lint_false_paid_claim claims_paid
    claims_paid_from claim_here
draft_accepted = refl

validate_idempotent_example : validate_message_draft env draft ≡ ok draft
validate_idempotent_example = validate_idempotent env draft draft env-IsStandard draft_accepted

validate_body_example : 1 ≤ length draft.body
validate_body_example = (validate_body env draft draft draft_accepted).0

terminal_absorbs_example : expire_if_due carried_out 9000000 9000000 ≡ carried_out
unfolding applied is_terminal
terminal_absorbs_example =
    (terminal_absorbs env carried_out
      (record { link_code = codes "ABC234"; seen_digest = []; now = 9000000 }) 9000000 9000000 []
      refl).0

safe_equal_hex-sha256_iff_example :
    safe_equal_hex (env.sha256_hex (codes "x")) (env.sha256_hex (codes "y")) ≡ true
safe_equal_hex-sha256_iff_example =
    (safe_equal_hex-sha256_iff env (codes "x") (codes "y") env-IsStandard).1 refl
