-- ===== src/Http/Limiter/Bound.antt =====
-- How many attempts the limiter lets through.
use pooli.Base.{
  ℕ, ◌+◌, ◌≤◌, ◌<◌, true, false, List, [], ◌∷◌, Option, none, some, Text, leb, if◌then◌else◌,
  text_eq, Option-cases, Bool-cases, ◌≡◌, ◌⊎◌, refl, ◌∙◌, inl, inr, arith,
}
use pooli.Base.Dict.{lookup, insert, lookup-insert, lookup-insert_self}
use pooli.Http.Limiter.{AttemptLimiter, Window, live, consume, consume_window}

lookup-consume_other :
    (l : AttemptLimiter) (key other : Text) (now : ℕ)
    → text_eq key other ≡ false
    → lookup other (consume l key now).0.attempts ≡ lookup other l.attempts
unfolding consume
lookup-consume_other l key other now h = go (live (lookup key l.attempts) now)
  where
    go :
        (o : Option Window)
        → lookup other (consume_window l key now o).0.attempts ≡ lookup other l.attempts
    go none = lookup-insert key other _ l.attempts ∙ rw h refl
    go (some cur) = elim (Bool-cases (leb l.max cur.count)) [
      | inl full ↦ rw full refl
      | inr room ↦ rw room (lookup-insert key other _ l.attempts ∙ rw h refl)
    ]

-- A run of calls on one key, at given times: the limiter after it, and how many were let through.
unfoldable pub attempts_through : AttemptLimiter → Text → List ℕ → AttemptLimiter × ℕ
attempts_through l key [] = (l, 0)
attempts_through l key (now ∷ times) =
    let (l', passed) = consume l key now in
    let (l'', n) = attempts_through l' key times in (l'', if passed then n + 1 else n)

-- Times that do not fall, from `lo` on and before `hi`.
abbrev pub Within : ℕ → ℕ → List ℕ → Type 0
Within lo hi [] = Unit
Within lo hi (t ∷ ts) = (lo ≤ t) × (t < hi) × Within t hi ts

-- A call while the window of the key is open.
consume_open :
    (l : AttemptLimiter) (key : Text) (now : ℕ) (cur : Window)
    → lookup key l.attempts ≡ some cur
    → now < cur.reset_at
    → ((consume l key now ≡ (l, false)) × (l.max ≤ cur.count))
      ⊎ ((cur.count < l.max)
          × (consume l key now ≡ (
            record l {
              attempts =
                  insert key (record { count = cur.count + 1; reset_at = cur.reset_at }) l.attempts;
            },
            true,
          )))
unfolding consume
consume_open l key now cur f h = rw f (ground arith)

consume_closed :
    (l : AttemptLimiter) (key : Text) (now : ℕ)
    → live (lookup key l.attempts) now ≡ none
    → consume l key now ≡ (
      record l {
        attempts = insert key (record { count = 1; reset_at = now + l.window_ms }) l.attempts;
      },
      true,
    )
unfolding consume
consume_closed l key now h = rw h refl

-- In one window.
through_open :
    (l : AttemptLimiter) (key : Text) (lo : ℕ) (times : List ℕ) (cur : Window)
    → lookup key l.attempts ≡ some cur
    → cur.count ≤ l.max
    → Within lo cur.reset_at times
    → cur.count + (attempts_through l key times).1 ≤ l.max
unfolding attempts_through
through_open l key lo [] cur f c w = omega arith
through_open l key lo (t ∷ ts) cur f c (a, b, w) = elim (consume_open l key t cur f b) [
  | inl (e, full) ↦ rw e (through_open l key t ts cur f c w)
  | inr (room, e) ↦
      let cur' : Window = record { count = cur.count + 1; reset_at = cur.reset_at } in
      let l' : AttemptLimiter = record l { attempts = insert key cur' l.attempts } in
      let ih =
        through_open l' key t ts cur' (lookup-insert_self key cur' l.attempts) (omega arith) w in
      rw e (omega (arith, ih))
]

Within-le : (lo hi hi' : ℕ) (ts : List ℕ) → hi ≤ hi' → Within lo hi ts → Within lo hi' ts
Within-le lo hi hi' [] h w = tt
Within-le lo hi hi' (t ∷ ts) h (a, b, w) = (a, omega arith, Within-le t hi hi' ts h w)

-- A run whose first call finds no open window.
through_closed :
    (l : AttemptLimiter) (key : Text) (t hi : ℕ) (ts : List ℕ)
    → 1 ≤ l.max
    → live (lookup key l.attempts) t ≡ none
    → hi ≤ t + l.window_ms
    → Within t hi ts
    → (attempts_through l key (t ∷ ts)).1 ≤ l.max
unfolding attempts_through
through_closed l key t hi ts m f h w =
    let cur : Window = record { count = 1; reset_at = t + l.window_ms } in
    let l' : AttemptLimiter = record l { attempts = insert key cur l.attempts } in
    let rest =
      through_open l' key t ts cur (lookup-insert_self key cur l.attempts) m
        (Within-le t hi _ ts h w) in
    rw (consume_closed l key t f) (omega (arith, rest))

through_known :
    (l : AttemptLimiter) (key : Text) (lo hi : ℕ) (times : List ℕ) (cur : Window)
    → 1 ≤ l.max
    → lookup key l.attempts ≡ some cur
    → cur.count ≤ l.max
    → hi ≤ lo + l.window_ms
    → Within lo hi times
    → cur.count + (attempts_through l key times).1 ≤ l.max + l.max
unfolding attempts_through
through_known l key lo hi [] cur m f c h w = omega arith
through_known l key lo hi (t ∷ ts) cur m f c h (a, b, w) = elim (Bool-cases (leb cur.reset_at t)) [
  | inl over ↦
      let first = through_closed l key t hi ts m (rw f (rw over refl)) (omega arith) w in
      omega (arith, first)
  | inr on ↦ elim (consume_open l key t cur f (ground arith)) [
    | inl (e, full) ↦ rw e (through_known l key t hi ts cur m f c (omega arith) w)
    | inr (room, e) ↦
        let cur' : Window = record { count = cur.count + 1; reset_at = cur.reset_at } in
        let l' : AttemptLimiter = record l { attempts = insert key cur' l.attempts } in
        let ih =
          through_known l' key t hi ts cur' m (lookup-insert_self key cur' l.attempts) (omega arith)
            (omega arith) w in
        rw e (omega (arith, ih))
  ]
]

-- With no window of the key open at the start, a run within the length of a window gets at most
-- `max` attempts.
attempts_through_fresh :
    (l : AttemptLimiter) (key : Text) (start : ℕ) (times : List ℕ)
    → 1 ≤ l.max
    → lookup key l.attempts ≡ none
    → Within start (start + l.window_ms) times
    → (attempts_through l key times).1 ≤ l.max
attempts_through_fresh l key start [] m f w = unfold attempts_through in (omega arith)
attempts_through_fresh l key start (t ∷ ts) m f (a, b, w) =
    through_closed l key t (start + l.window_ms) ts m (rw f refl) (omega arith) w

-- Where the limit is at least one and the count of an open window is at most the limit, a run of
-- attempts with one key within the length of a window lets at most twice the limit through, and at
-- most the limit if no window of the key is open at the start.
pub attempts_through_bound :
    (l : AttemptLimiter) (key : Text) (start : ℕ) (times : List ℕ)
    → 1 ≤ l.max
    → ((cur : Window) → lookup key l.attempts ≡ some cur → cur.count ≤ l.max)
    → Within start (start + l.window_ms) times
    → ((attempts_through l key times).1 ≤ l.max + l.max)
      × (lookup key l.attempts ≡ none → (attempts_through l key times).1 ≤ l.max)
attempts_through_bound l key start times m c w = elim (Option-cases (lookup key l.attempts)) [
  | inl fresh ↦
      let n = attempts_through_fresh l key start times m fresh w in (omega (arith, n), λ f. n)
  | inr (cur, f) ↦ (
    omega (arith, through_known l key start _ times cur m f (c cur f) (omega arith) w),
    λ fresh. attempts_through_fresh l key start times m fresh w,
  )
]
