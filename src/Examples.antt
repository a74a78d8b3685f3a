-- ===== src/Examples.antt =====
-- Concrete inputs that the theorems about apps/action-gateway/src are applied to: a platform with
-- ASCII case mappings and a stub of SHA-256, a draft, its proposal and the stores that it goes through.
pub mod Gateway
pub mod Lifecycle
pub mod Routes
pub mod Web
pub mod Signer
pub mod Auth
pub mod Storage
pub mod Wallets
use pooli.Base.{
  ℕ, ◌<◌, List, [], ◌∷◌, map, Text, codes, replicate, length-replicate, zero, suc, ltb, ltb→lt,
  every, every-All, All-imp, Bool, ◌++◌, false, All, All-append, ◌≡◌, refl, true,
}
use pooli.Domain.Platform.{Platform, IsStandard, ascii_lower, ascii_upper, is_hex_lower}
use pooli.Domain.Canonical.Reader.{IsUnits}
use pooli.Domain.Types.{MessageDraftPayload, Proposal, confirmed, executed, human, system}
use pooli.Domain.Machine.{CreateInput, create_proposal, applied, execution_prefix}
use pooli.Domain.Store.{Store}
use pooli.Domain.Registry.{ProposeInput, ProposeOutput, Draw, Clock, reference_of}

abbrev pub env : Platform
env = record {
  to_lower = map ascii_lower;
  to_upper = map ascii_upper;
  sha256_hex = λ s. replicate 64 b'a';
}

All-replicate : (n : ℕ) → All (λ c. is_hex_lower c ≡ true) (replicate n b'a')
All-replicate zero = tt
All-replicate (suc n) = (refl, All-replicate n)

-- Texts whose units a test finds small enough
pub every-IsUnits : (ss : List Text) → every (every (λ c. ltb c 65536)) ss ≡ true → All IsUnits ss
every-IsUnits ss h =
    All-imp (λ s. every (λ c. ltb c 65536) s ≡ true) IsUnits ss
      (λ s k.
        All-imp (λ c. ltb c 65536 ≡ true) (λ c. c < 65536) s (λ c. ltb→lt c 65536)
          (every-All (λ c. ltb c 65536) s k))
      (every-All (every (λ c. ltb c 65536)) ss h)

pub env-IsStandard : IsStandard env
env-IsStandard = record {
  lower_ascii = λ s h. refl;
  upper_ascii = λ s h. refl;
  digest_length = λ s. refl;
  digest_hex = λ s. All-replicate 64;
}

abbrev pub draft : MessageDraftPayload
draft = record {
  order_id = codes "ord_1";
  order_slug = codes "mug";
  merchant_id = [];
  body = codes "hi";
  locale = codes "en";
  payment_status = codes "EXPIRED";
}

abbrev pub input : ProposeInput
input = record { payload = draft; idempotency_key = codes "k" }

abbrev pub draw : Draw
draw = record { new_id = codes "p"; new_link_code = codes "ABC234"; ttl_seconds = 300; now = 1000 }

abbrev pub creation : CreateInput
creation = record {
  id = codes "p";
  payload = draft;
  link_code = codes "ABC234";
  idempotency_key = codes "k";
  ttl_seconds = 300;
  now = 1000;
}

abbrev pub proposal : Proposal
proposal = create_proposal env creation

abbrev pub approved : Proposal
approved = applied proposal confirmed (codes "confirmed by human") human 2000

abbrev pub carried_out : Proposal
carried_out =
    applied approved executed (execution_prefix ++ reference_of env (codes "p")) system 3000

abbrev pub store_of : Proposal → Store
store_of p = record { by_id = (codes "p", p) ∷ []; by_idempotency = (codes "k", codes "p") ∷ [] }

abbrev pub output : ProposeOutput
output = record { proposal = proposal; link_code = codes "ABC234"; deduplicated = false }

abbrev pub clock : Clock
clock = record { now = 2000; wall = 2000; now_again = 2000; wall_again = 2000 }
