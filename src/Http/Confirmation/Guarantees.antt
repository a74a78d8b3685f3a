-- ===== src/Http/Confirmation/Guarantees.antt =====
-- Verdicts and guesses at the confirmation routes of confirmation-api.ts.
use pooli.Base.{
  ℕ, suc, ◌+◌, ◌≤◌, true, List, [], ◌∷◌, map, none, some, Text, Bool-cases, ◌≡◌, ◌≢◌, refl, ◌∙◌,
  inl, inr, arith,
}
use mathlib.Core.Path.{subst}
use pooli.Base.Dict.{lookup}
use pooli.Domain.Platform.{Platform}
use pooli.Domain.Types.{Proposal, DomainError, executed, Result, ok, fail}
use pooli.Domain.Machine.Branches.{IsApproved}
use pooli.Domain.Store.{Store, get}
use pooli.Domain.Registry
use pooli.Domain.Registry.{Clock}
use pooli.Domain.Registry.Results.{confirm_result, execute_result}
use pooli.Http.Limiter.{Window, consume, clear}
use pooli.Http.Limiter.Bound.{attempts_through, attempts_through_bound, Within}
use pooli.Http.Confirmation.{
  Api, Times, Verdict, limited, refused, unexecuted, done, admit, attempt, confirm_key,
  after_confirm, after_execute,
}

admit_cases :
    (s : Api) (id : Text) (t : Times)
    → ((admit s id t).0.limiter ≡ (consume s.limiter (confirm_key id) t.limiter_now).0)
      × ((admit s id t).0.store ≡ s.store)
      × ((admit s id t).1 ≡ true → (consume s.limiter (confirm_key id) t.limiter_now).1 ≡ true)
unfolding admit
admit_cases s id t = (ground arith, ground arith, ground arith)

-- Once the code has been accepted the verdict is neither a stop nor a refusal.
after_execute-verdict :
    (s : Api) (r : Store × Result Proposal)
    → ((after_execute s r).1 ≢ limited) × ((e : DomainError) → (after_execute s r).1 ≢ refused e)
after_execute-verdict s (st, ok p) = (λ h. cc, λ e h. cc)
after_execute-verdict s (st, fail e) = (λ h. cc, λ e h. cc)

after_confirm-ne_limited :
    (env : Platform) (s : Api) (id : Text) (t : Times) (r : Store × Result Proposal)
    → (after_confirm env s id t r).1 ≢ limited
after_confirm-ne_limited env s id t (st, fail e) = λ h. cc
after_confirm-ne_limited env s id t (st, ok p) =
    (after_execute-verdict (record s { store = st; limiter = clear s.limiter (confirm_key id) })
      (Registry.execute env id t.execute_wall st)).0

after_confirm-refused :
    (env : Platform) (s : Api) (id : Text) (t : Times) (r : Store × Result Proposal)
    (e : DomainError)
    → (after_confirm env s id t r).1 ≡ refused e
    → (after_confirm env s id t r).0.limiter ≡ s.limiter
after_confirm-refused env s id t (st, fail e') e h = refl
after_confirm-refused env s id t (st, ok p) e h = absurd (
    (after_execute-verdict (record s { store = st; limiter = clear s.limiter (confirm_key id) })
        (Registry.execute env id t.execute_wall st)).1
      e h)

-- A call that the limiters stop never reaches the registry.
attempt_limited :
    (env : Platform) (s : Api) (id link_code digest : Text) (t : Times)
    → (attempt env s id link_code digest t).1 ≡ limited
    → ((attempt env s id link_code digest t).0.store ≡ s.store)
      × ((attempt env s id link_code digest t).0.limiter
          ≡ (consume s.limiter (confirm_key id) t.limiter_now).0)
unfolding attempt
attempt_limited env s id link_code digest t h = elim (Bool-cases (admit s id t).1) [
  | inl through ↦ absurd (after_confirm-ne_limited env (admit s id t).0 id t _ (rw through at h))
  | inr stopped ↦ rw stopped ((admit_cases s id t).1, (admit_cases s id t).0)
]

attempt_refused :
    (env : Platform) (s : Api) (id link_code digest : Text) (t : Times) (e : DomainError)
    → (attempt env s id link_code digest t).1 ≡ refused e
    → ((attempt env s id link_code digest t).0.limiter
        ≡ (consume s.limiter (confirm_key id) t.limiter_now).0)
      × ((consume s.limiter (confirm_key id) t.limiter_now).1 ≡ true)
unfolding attempt
attempt_refused env s id link_code digest t e h = elim (Bool-cases (admit s id t).1) [
  | inl through ↦ rw through (
    after_confirm-refused env (admit s id t).0 id t _ e (rw through at h) ∙ (admit_cases s id t).0,
    (admit_cases s id t).2 through,
  )
  | inr stopped ↦ absurd (stopped_ne (rw stopped at h))
]
  where
    stopped_ne : ◌≡◌ {A = Verdict} limited (refused e) → ⊥
    stopped_ne k = cc

-- Guesses at the code of one proposal, one after another, up to the first that is right.
pub record Guess : Type 0 where
  pub link_code : Text
  pub digest : Text
  pub times : Times

abbrev count_guess : Verdict → ℕ → ℕ
count_guess limited n = n
count_guess (refused e) n = suc n
count_guess (unexecuted e) n = 0
count_guess (done p) n = 0

-- How many of them the registry judges and refuses, up to the first that it accepts.
unfoldable pub guesses_judged : Platform → Api → Text → List Guess → ℕ
guesses_judged env s id [] = 0
guesses_judged env s id (g ∷ gs) =
    let (s', v) = attempt env s id g.link_code g.digest g.times in
    count_guess v (guesses_judged env s' id gs)

guess_step :
    (env : Platform) (s : Api) (id : Text) (g : Guess) (times : List ℕ) (n : ℕ) (v : Verdict)
    → (attempt env s id g.link_code g.digest g.times).1 ≡ v
    → n
      ≤ (attempts_through
          (attempt env s id g.link_code g.digest g.times).0.limiter
          (confirm_key id)
          times).1
    → count_guess v n
      ≤ (attempts_through s.limiter (confirm_key id) (g.times.limiter_now ∷ times)).1
unfolding attempts_through
guess_step env s id g times n limited e ih =
    let same = (attempt_limited env s id g.link_code g.digest g.times e).1 in
    let m = rw same at ih in
    elim (Bool-cases (consume s.limiter (confirm_key id) g.times.limiter_now).1) [
      | inl passed ↦ rw passed (omega (arith, m))
      | inr stopped ↦ rw stopped m
    ]
guess_step env s id g times n (refused x) e ih =
    let (same, passed) = attempt_refused env s id g.link_code g.digest g.times x e in
    let m = rw same at ih in rw passed (omega (arith, m))
guess_step env s id g times n (unexecuted x) e ih = omega arith
guess_step env s id g times n (done p) e ih = omega arith

guesses-le-attempts :
    (env : Platform) (s : Api) (id : Text) (gs : List Guess)
    → guesses_judged env s id gs
      ≤ (attempts_through s.limiter (confirm_key id) (map (λ g. g.times.limiter_now) gs)).1
unfolding guesses_judged
guesses-le-attempts env s id [] = omega arith
guesses-le-attempts env s id (g ∷ gs) =
    guess_step env s id g (map (λ h. h.times.limiter_now) gs) _ _ refl
      (guesses-le-attempts env (attempt env s id g.link_code g.digest g.times).0 id gs)

-- Where the limit is at least one and the count of an open window is at most the limit: of the
-- guesses at the code of one proposal made within the length of a window, whatever they are and
-- until one is accepted, the registry judges and refuses at most twice the limit, and at most the
-- limit if no window of the proposal is open at the start.
pub guesses_judged_bound :
    (env : Platform) (s : Api) (id : Text) (start : ℕ) (gs : List Guess)
    → 1 ≤ s.limiter.max
    → ((cur : Window)
        → lookup (confirm_key id) s.limiter.attempts ≡ some cur
        → cur.count ≤ s.limiter.max)
    → Within start (start + s.limiter.window_ms) (map (λ g. g.times.limiter_now) gs)
    → (guesses_judged env s id gs ≤ s.limiter.max + s.limiter.max)
      × (lookup (confirm_key id) s.limiter.attempts ≡ none
          → guesses_judged env s id gs ≤ s.limiter.max)
guesses_judged_bound env s id start gs m c w =
    let (twice, once) = attempts_through_bound s.limiter (confirm_key id) start _ m c w in
    (
      omega (arith, guesses-le-attempts env s id gs, twice),
      λ fresh. omega (arith, guesses-le-attempts env s id gs, once fresh),
    )

after_confirm-done :
    (env : Platform) (s : Api) (id : Text) (t : Times) (r : Store × Result Proposal) {p : Proposal}
    → (after_confirm env s id t r).1 ≡ done p
    → ((q : Proposal) × (r.1 ≡ ok q)) × (p.state ≡ executed)
after_confirm-done env s id t (st, fail e) h = cc
after_confirm-done env s id t (st, ok q) {p} h =
    ((q, refl), execute_result env id t.execute_wall st (go _ h))
  where
    go :
        (r : Store × Result Proposal)
        → (after_execute (record s { store = st; limiter = clear s.limiter (confirm_key id) }) r).1
          ≡ done p
        → r.1 ≡ ok p
    go (st', ok p') k = cc
    go (st', fail e) k = cc

-- The confirmation routes answer with success only if the proposal stored under the id was pending
-- and before its deadline and the code and digest that were sent match it; the proposal that they
-- answer with is executed.
pub attempt_done :
    (env : Platform) (s : Api) (id link_code digest : Text) (t : Times) (p : Proposal)
    → (attempt env s id link_code digest t).1 ≡ done p
    → (current : Proposal) × (get s.store id ≡ some current)
      × IsApproved env current
          (record { link_code = link_code; seen_digest = digest; now = t.clock.now })
      × (p.state ≡ executed)
unfolding attempt
attempt_done env s id link_code digest t p h = elim (Bool-cases (admit s id t).1) [
  | inl through ↦
      let (result, state) = after_confirm-done env (admit s id t).0 id t _ (rw through at h) in
      let (q, confirmed_ok) = result in
      let (current, found, approved) =
        confirm_result env id link_code digest t.clock _ confirmed_ok in
      (
        current,
        subst (λ st. get st id ≡ some current) (admit_cases s id t).1 found,
        approved,
        state,
      )
  | inr stopped ↦ absurd (not_done (rw stopped at h))
]
  where
    not_done : ◌≡◌ {A = Verdict} limited (done p) → ⊥
    not_done k = cc
