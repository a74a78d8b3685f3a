-- ===== src/Domain/Registry/Interleaving/Safety.antt =====
-- Reachable worlds of overlapping calls of registry.ts.
use pooli.Base.{
  ◌≤◌, Text, text_eq, text_eq_iff, List, [], ◌∷◌, ◌++◌, none, some, Bool-cases, ◌≡◌, ◌≢◌, ◌⊎◌, inl,
  inr, refl, sym, ap, ◌∙◌, arith,
}
use mathlib.Core.Path.{subst}
use mathlib.Core.Option.{some-injective}
use pooli.Domain.Platform.{Platform}
use pooli.Domain.Types.{TransitionRecord, Proposal, Result, ok, fail, executed, error_code}
use pooli.Domain.Machine.{create_proposal}
use pooli.Domain.Machine.Audit.{IsStep, IsAudited, IsStep-IsAudited, create_proposal-IsAudited}
use pooli.Domain.Machine.History.{ThreeRecords, executed_history}
use pooli.Domain.Store.{Store, get, empty, insert_proposal}
use pooli.Domain.Store.Laws.{put, get-put, get-empty, insert_proposal-cases}
use pooli.Domain.Registry.Commits.{
  Action, run_action, IsWrite, run_action-IsCommit, run_action-IsWrite,
}
use pooli.Domain.Registry.Interleaving.{
  World, Step, read, commit, insert, Reach, here, next, same, later, Evolves-trans, Evolves-history,
  Evolves-le, Evolves-payload, IsHeld, IsCoherent, Grows, Grows-IsHeld, IsHeld-middle,
  IsWrite-current,
}

abbrev AllAudited : Platform → Store → Type 0
AllAudited env st = (id : Text) (p : Proposal) → get st id ≡ some p → (p.id ≡ id) × IsAudited env p

Grows-refl : (st : Store) → Grows st st
Grows-refl st id p f = (p, f, same)

-- A record under `id` after a write of `q`: `q` itself, or an old one.
put-cases :
    (st : Store) (q : Proposal) (id : Text) (r : Proposal)
    → get (put st q) id ≡ some r
    → ((q.id ≡ id) × (r ≡ q)) ⊎ (get st id ≡ some r)
put-cases st q id r f = elim (Bool-cases (text_eq q.id id)) [
  | inl hit ↦ inl ((text_eq_iff q.id id).0 hit, ground (arith, get-put st q id))
  | inr miss ↦ inr (ground (arith, get-put st q id))
]

write-get : {st st' : Store} {p q : Proposal} → IsWrite p st st' q → get st' p.id ≡ some q
write-get {st} {p} {q} w =
    rw w.result (get-put st q p.id ∙ rw ((text_eq_iff q.id p.id).1 w.step.same.id) refl)

ok_of_no_error : (r : Result Proposal) → error_code r ≡ none → (q : Proposal) × (r ≡ ok q)
ok_of_no_error (ok q) h = (q, refl)
ok_of_no_error (fail e) h = cc

module _ {st st' : Store} {p q : Proposal} (current : get st p.id ≡ some p)
    (w : IsWrite p st st' q) where
  write-Grows : Grows st st'
  write-Grows id r f = rw w.result (elim (Bool-cases (text_eq q.id id)) [
    | inl hit ↦
        let at : q.id ≡ id = (text_eq_iff q.id id).0 hit in
        let is_p : p ≡ r = cc (w.step.same.id) in
        (q, ground (arith, get-put st q id), rw (← is_p) (later same w.step))
    | inr miss ↦ (r, ground (arith, get-put st q id), same)
  ])

  write-AllAudited : (env : Platform) → AllAudited env st → AllAudited env st'
  write-AllAudited env h id r f = elim (put-cases st q id r (rw w.result at f)) [
    | inl (at, is_q) ↦ (rw is_q at, rw is_q (IsStep-IsAudited env p q w.step (h p.id p current).1))
    | inr old ↦ h id r old
  ]

insert-Grows : (st : Store) (p : Proposal) → Grows st (insert_proposal st p).0
insert-Grows st p id r f = elim (insert_proposal-cases st p) [
  | inl (fresh, _, at) ↦ elim (Bool-cases (text_eq p.id id)) [
    | inl hit ↦ absurd (ground (arith, text_eq_iff p.id id))
    | inr miss ↦ (r, ground (arith, at id), same)
  ]
  | inr kept ↦ rw kept (r, f, same)
]

insert-AllAudited :
    (env : Platform) (st : Store) (p : Proposal)
    → IsAudited env p
    → AllAudited env st
    → AllAudited env (insert_proposal st p).0
insert-AllAudited env st p a h id r f = elim (insert_proposal-cases st p) [
  | inl (fresh, _, at) ↦ elim (Bool-cases (text_eq p.id id)) [
    | inl hit ↦
        let is_p : r ≡ p = ground (arith, at id) in
        (rw is_p ((text_eq_iff p.id id).0 hit), rw is_p a)
    | inr miss ↦ h id r (ground (arith, at id))
  ]
  | inr kept ↦ h id r (rw kept at f)
]

-- One commit of a call whose record is held.
module _ (env : Platform) (st : Store) (p : Proposal) (a : Action) (held : IsHeld st p) where
  commit-Grows : Grows st (run_action env a p st).0
  commit-Grows = elim (run_action-IsCommit env a p st) [
    | inl (q, w, _) ↦ write-Grows (IsWrite-current held w) w
    | inr (kept, _) ↦ rw kept (Grows-refl st)
  ]

  commit-AllAudited : AllAudited env st → AllAudited env (run_action env a p st).0
  commit-AllAudited h = elim (run_action-IsCommit env a p st) [
    | inl (q, w, _) ↦ write-AllAudited (IsWrite-current held w) w env h
    | inr (kept, _) ↦ rw kept h
  ]

module _ (env : Platform) where
  Step-Grows : {s t : World} → IsCoherent env s → Step env s t → Grows s.store t.store
  Step-Grows c (read s id p a f) = Grows-refl s.store
  Step-Grows c (commit s before after p a e) =
      let parts = IsHeld-middle s.store before after p a (rw e at c.held) in
      commit-Grows env s.store p a parts.0
  Step-Grows c (insert s input) = insert-Grows s.store (create_proposal env input)

  Step-IsCoherent : {s t : World} → IsCoherent env s → Step env s t → IsCoherent env t
  Step-IsCoherent c (read s id p a f) = record {
    stored = c.stored;
    held = ((p, subst (λ k. get s.store k ≡ some p) (sym (c.stored id p f).0) f, same), c.held);
  }
  Step-IsCoherent c (commit s before after p a e) =
      let parts = IsHeld-middle s.store before after p a (rw e at c.held) in
      record {
        stored = commit-AllAudited env s.store p a parts.0 c.stored;
        held =
            Grows-IsHeld s.store _ (before ++ after) (commit-Grows env s.store p a parts.0) parts.1;
      }
  Step-IsCoherent c (insert s input) = record {
    stored =
        insert-AllAudited env s.store (create_proposal env input)
          (create_proposal-IsAudited env input) c.stored;
    held =
        Grows-IsHeld s.store _ s.pending (insert-Grows s.store (create_proposal env input)) c.held;
  }

  pub Reach-IsCoherent : {s t : World} → IsCoherent env s → Reach env s t → IsCoherent env t
  Reach-IsCoherent c here = c
  Reach-IsCoherent c (next r st) = Step-IsCoherent (Reach-IsCoherent c r) st

  Reach-Grows : {s t : World} → IsCoherent env s → Reach env s t → Grows s.store t.store
  Reach-Grows c here id p f = (p, f, same)
  Reach-Grows c (next r st) id p f =
      let (q, f', e) = Reach-Grows c r id p f in
      let (q', f'', e') = Step-Grows (Reach-IsCoherent c r) st id q f' in
      (q', f'', Evolves-trans e e')

abbrev pub start : World
start = record { store = empty; pending = [] }

start-IsCoherent : (env : Platform) → IsCoherent env start
start-IsCoherent env = record {
  stored = λ id p f. absurd (ground (arith, get-empty id));
  held = tt;
}

-- Whatever calls of the registry overlap, from an empty store, a proposal that is stored as
-- executed has exactly three records in its audit trail: one by the agent, then the approval by a
-- human, then the execution by the system; it is stored under its own id and has version 3.
pub executed_after_approval :
    (env : Platform) {s : World} (id : Text) (p : Proposal)
    → Reach env start s
    → get s.store id ≡ some p
    → p.state ≡ executed
    → (p.id ≡ id) × ThreeRecords p.history × (p.version ≡ 3)
executed_after_approval env id p r f e =
    let (at, a) = (Reach-IsCoherent env (start-IsCoherent env) r).stored id p f in
    let (three, v) = executed_history env p a e in (at, three, v)

-- Whatever calls overlap, a record that is stored at one moment is stored under the same id at
-- every later one, with the same payload, a version that is not lower, and an audit trail that has
-- the earlier one as its beginning.
pub history_append_only :
    (env : Platform) {s t : World} (id : Text) (p : Proposal)
    → Reach env start s
    → Reach env s t
    → get s.store id ≡ some p
    → (q : Proposal) × (get t.store id ≡ some q)
      × ((tail : List TransitionRecord) × (q.history ≡ p.history ++ tail))
      × (q.payload ≡ p.payload)
      × (p.version ≤ q.version)
history_append_only env id p r r' f =
    let (q, f', e) = Reach-Grows env (Reach-IsCoherent env (start-IsCoherent env) r) r' id p f in
    (q, f', Evolves-history e, Evolves-payload e, Evolves-le e)

-- In every state that overlapping calls can reach from an empty store, a pending call that succeeds
-- when it writes has read what is stored at that moment, and what it stores under the id is one
-- legal step from there.
pub commit_is_current :
    (env : Platform) {s : World} (before after : List (Proposal × Action)) (p : Proposal)
    (a : Action) {q : Proposal}
    → Reach env start s
    → s.pending ≡ before ++ (p, a) ∷ after
    → (run_action env a p s.store).1 ≡ ok q
    → (get s.store p.id ≡ some p) × IsStep p q × (get (run_action env a p s.store).0 p.id ≡ some q)
commit_is_current env {s} before after p a r e h =
    let c = Reach-IsCoherent env (start-IsCoherent env) r in
    let held = (IsHeld-middle s.store before after p a (rw e at c.held)).0 in
    let w = run_action-IsWrite env a p s.store h in (IsWrite-current held w, w.step, write-get w)

-- Of two calls that decide on the same record that was read, whichever operations they are, the
-- second is refused with an error once the first has succeeded.
pub second_commit_refused :
    (env : Platform) (a b : Action) (p : Proposal) (st : Store) {q : Proposal}
    → (run_action env a p st).1 ≡ ok q
    → error_code (run_action env b p (run_action env a p st).0).1 ≢ none
second_commit_refused env a b p st h none_left =
    let w = run_action-IsWrite env a p st h in
    let (q', h') = ok_of_no_error (run_action env b p (run_action env a p st).0).1 none_left in
    let w' = run_action-IsWrite env b p (run_action env a p st).0 h' in
    let eq : w'.stored ≡ _ = some-injective _ _ (sym w'.found ∙ write-get w) in
    omega (arith, ap (λ r. r.version) eq, w'.fresh, w.step.version)
