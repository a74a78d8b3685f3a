-- ===== src/Domain/Registry/Interleaving.antt =====
-- Calls of the registry that overlap: each reads at one moment and decides and writes at a later
-- one, with any steps of other calls between, as the `await` of registry.ts allows.
pub mod Safety
use pooli.Base.{
  ℕ, ◌+◌, ◌≤◌, Text, text_eq, text_eq_iff, List, [], ◌∷◌, ◌++◌, Option, none, some, All,
  if◌then◌else◌, Bool-cases, ◌≡◌, ◌≢◌, ◌⊎◌, inl, inr, refl, sym, ap, ◌∙◌, arith, append-nil,
  append_assoc,
}
use pooli.Domain.Platform.{Platform}
use pooli.Domain.Types.{MessageDraftPayload, TransitionRecord, Proposal, ok, executed}
use pooli.Domain.Machine.{CreateInput, create_proposal}
use pooli.Domain.Machine.Audit.{IsStep, IsAudited, IsStep-IsAudited, create_proposal-IsAudited}
use pooli.Domain.Store.{Store, get, insert_proposal}
use pooli.Domain.Store.Laws.{put, get-put, insert_proposal-cases}
use pooli.Domain.Registry.Commits.{
  Action, run_action, IsWrite, IsCommit, run_action-IsCommit, run_action-IsWrite,
}

-- The store, and the calls that have read and not yet written.
pub record World : Type 0 where
  pub store : Store
  pub pending : List (Proposal × Action)

module _ (env : Platform) where
  pub data Step : World → World → Type 0 where
    read :
        (s : World) (id : Text) (p : Proposal) (a : Action)
        → get s.store id ≡ some p
        → Step s (record s { pending = (p, a) ∷ s.pending })
    commit :
        (s : World) (before after : List (Proposal × Action)) (p : Proposal) (a : Action)
        → s.pending ≡ before ++ (p, a) ∷ after
        → Step s (record { store = (run_action env a p s.store).0; pending = before ++ after })
    insert :
        (s : World) (input : CreateInput)
        → Step s (record s { store = (insert_proposal s.store (create_proposal env input)).0 })

  pub data Reach (s : World) : World → Type 0 where
    here : Reach s s
    next : {t u : World} → Reach s t → Step t u → Reach s u

-- A record and what later transitions have made of it.
pub data Evolves (p : Proposal) : Proposal → Type 0 where
  same : Evolves p p
  later : {q r : Proposal} → Evolves p q → IsStep q r → Evolves p r

pub Evolves-trans : {p q r : Proposal} → Evolves p q → Evolves q r → Evolves p r
Evolves-trans e same = e
Evolves-trans e (later f s) = later (Evolves-trans e f) s

pub Evolves-le : {p q : Proposal} → Evolves p q → p.version ≤ q.version
Evolves-le same = omega arith
Evolves-le (later e s) = omega (arith, Evolves-le e, s.version)

pub Evolves-eq : {p q : Proposal} → Evolves p q → q.version ≡ p.version → q ≡ p
Evolves-eq same h = refl
Evolves-eq (later e s) h = absurd (omega (arith, Evolves-le e, s.version))

pub Evolves-id : {p q : Proposal} → Evolves p q → q.id ≡ p.id
Evolves-id same = refl
Evolves-id (later e s) = s.same.id ∙ Evolves-id e

pub Evolves-payload : {p q : Proposal} → Evolves p q → q.payload ≡ p.payload
Evolves-payload same = refl
Evolves-payload (later e s) = s.same.payload ∙ Evolves-payload e

pub Evolves-history :
    {p q : Proposal}
    → Evolves p q
    → (tail : List TransitionRecord) × (q.history ≡ p.history ++ tail)
Evolves-history {p} same = ([], sym (append-nil p.history))
Evolves-history {p} (later e s) =
    let (tail, h) = Evolves-history e in
    (
      tail ++ s.entry ∷ [],
      s.history ∙ (ap (λ k. k ++ s.entry ∷ []) h ∙ append_assoc p.history tail (s.entry ∷ [])),
    )

-- A record that was read is still there, perhaps further on.
abbrev pub IsHeld : Store → Proposal → Type 0
IsHeld st p = (q : Proposal) × (get st p.id ≡ some q) × Evolves p q

-- What holds between any two steps.
pub record IsCoherent (env : Platform) (s : World) : Type 0 where
  pub stored : (id : Text) (p : Proposal) → get s.store id ≡ some p → (p.id ≡ id) × IsAudited env p
  pub held : All (λ (p, a). IsHeld s.store p) s.pending

-- From one store to another, no record is lost, and each has only evolved.
abbrev pub Grows : Store → Store → Type 0
Grows st st' =
    (id : Text) (p : Proposal)
    → get st id ≡ some p
    → (q : Proposal) × (get st' id ≡ some q) × Evolves p q

pub Grows-IsHeld :
    (st st' : Store) (ps : List (Proposal × Action))
    → Grows st st'
    → All (λ (p, a). IsHeld st p) ps
    → All (λ (p, a). IsHeld st' p) ps
Grows-IsHeld st st' [] g h = tt
Grows-IsHeld st st' ((p, a) ∷ ps) g ((q, f, e), h) =
    let (r, f', e') = g p.id q f in ((r, f', Evolves-trans e e'), Grows-IsHeld st st' ps g h)

-- A pending call is taken out of the list.
pub IsHeld-middle :
    (st : Store) (before after : List (Proposal × Action)) (p : Proposal) (a : Action)
    → All (λ (p, a). IsHeld st p) (before ++ (p, a) ∷ after)
    → IsHeld st p × All (λ (p, a). IsHeld st p) (before ++ after)
IsHeld-middle st [] after p a (h, hs) = (h, hs)
IsHeld-middle st (b ∷ before) after p a (h, hs) =
    let (found, rest) = IsHeld-middle st before after p a hs in (found, (h, rest))

-- Where a write is made, what was read is what is stored.
pub IsWrite-current :
    {st st' : Store} {p q : Proposal} → IsHeld st p → IsWrite p st st' q → get st p.id ≡ some p
IsWrite-current (r, f, e) w =
    let same : w.stored ≡ r = cc (w.found, f) in f ∙ ap some (Evolves-eq e (rw (← same) w.fresh))
