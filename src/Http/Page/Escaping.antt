-- ===== src/Http/Page/Escaping.antt =====
-- Markup and escaped values in the pages of confirmation-page.ts.
use pooli.Base.{
  ℕ, zero, suc, ◌+◌, Bool, true, false, ◌||◌, List, [], ◌∷◌, ◌++◌, Option, none, some, String, Text,
  codes, All, All-append, ◌==◌, if◌then◌else◌, ◌≡◌, sym, refl, ap, ◌∙◌, arith,
}
use pooli.Domain.Types.{Proposal, pending_confirmation, state_eq}
use pooli.Domain.Machine.{execution_reference_of}
use pooli.Domain.Store.{is_some}
use pooli.Http.Page.{
  reference_row, details, form, render_proposal, shell, Fragment, template, value, esc_unit, esc,
  html,
}

-- The units that end a text or an attribute of HTML.
abbrev pub is_markup : ℕ → Bool
is_markup c = c == b'<' || c == b'>' || c == 34 || c == 39

esc_unit-All : (c : ℕ) → All (λ d. is_markup d ≡ false) (esc_unit c)
unfolding esc_unit
esc_unit-All c = ground arith

-- An escaped value holds no unit of markup.
esc-All : (s : Text) → All (λ d. is_markup d ≡ false) (esc s)
unfolding esc
esc-All [] = tt
esc-All (c ∷ s) = All-append _ (esc_unit c) (esc s) (esc_unit-All c) (esc-All s)

-- A reader of the five character references: the unit that stands at the head, and how many units
-- of its reference are still to be passed.
abbrev head_or : ℕ → Text → ℕ
head_or d [] = d
head_or d (c ∷ s) = c

unit_at : ℕ → ℕ → ℕ
unit_at c next =
    if c == b'&'
    then (if next == b'a'
        then b'&'
        else if next == b'l'
        then b'<'
        else if next == b'g'
        then b'>'
        else if next == b'q'
        then 34
        else 39)
    else c

skip_at : ℕ → ℕ → ℕ
skip_at c next =
    if c == b'&'
    then (if next == b'a'
        then 4
        else if next == b'l'
        then 3
        else if next == b'g'
        then 3
        else if next == b'q'
        then 5
        else 4)
    else 0

unescape : ℕ → Text → Text
unescape n [] = []
unescape (suc n) (c ∷ s) = unescape n s
unescape zero (c ∷ s) = unit_at c (head_or 0 s) ∷ unescape (skip_at c (head_or 0 s)) s

unescape-esc_unit : (c : ℕ) (rest : Text) → unescape 0 (esc_unit c ++ rest) ≡ c ∷ unescape 0 rest
unfolding esc_unit unescape unit_at skip_at
unescape-esc_unit c rest = ground arith

unescape-esc : (s : Text) → unescape 0 (esc s) ≡ s
unfolding esc
unescape-esc [] = unfold unescape in refl
unescape-esc (c ∷ s) = unescape-esc_unit c (esc s) ∙ ap (λ t. c ∷ t) (unescape-esc s)

-- An escaped text has none of the units <, >, " and ', and two texts with the same escaped text are
-- the same.
pub esc_safe : (s t : Text) → All (λ d. is_markup d ≡ false) (esc s) × (esc s ≡ esc t → s ≡ t)
esc_safe s t = (esc-All s, λ e. sym (unescape-esc s) ∙ (ap (unescape 0) e ∙ unescape-esc t))

-- How many units of a text are markup.
pub markup_count : Text → ℕ
markup_count [] = 0
markup_count (c ∷ s) = if is_markup c then suc (markup_count s) else markup_count s

markup_count-append : (s t : Text) → markup_count (s ++ t) ≡ markup_count s + markup_count t
unfolding markup_count
markup_count-append [] t = omega arith
markup_count-append (c ∷ s) t = ground (arith, markup_count-append s t)

markup_count_none : (s : Text) → All (λ d. is_markup d ≡ false) s → markup_count s ≡ 0
unfolding markup_count
markup_count_none [] h = refl
markup_count_none (c ∷ s) (p, h) = rw p (markup_count_none s h)

-- A page with every value left out.
pub blank : List Fragment → List Fragment
blank [] = []
blank (template s ∷ fs) = template s ∷ blank fs
blank (value v ∷ fs) = blank fs

-- The markup of a page is that of its templates, whatever the values are.
pub html-markup : (fs : List Fragment) → markup_count (html fs) ≡ markup_count (html (blank fs))
unfolding html blank
html-markup [] = refl
html-markup (template s ∷ fs) =
    rw (markup_count-append (codes s) (html fs), markup_count-append (codes s) (html (blank fs)))
      (ap (λ n. markup_count (codes s) + n) (html-markup fs))
html-markup (value v ∷ fs) =
    rw (markup_count-append (esc v) (html fs), markup_count_none (esc v) (esc-All v))
      (omega (arith, html-markup fs))

blank-append : (fs gs : List Fragment) → blank (fs ++ gs) ≡ blank fs ++ blank gs
unfolding blank
blank-append [] gs = refl
blank-append (template s ∷ fs) gs = ap (λ hs. template s ∷ hs) (blank-append fs gs)
blank-append (value v ∷ fs) gs = blank-append fs gs

blank-reference_row :
    (a b : Option Text) → is_some a ≡ is_some b → blank (reference_row a) ≡ blank (reference_row b)
unfolding blank
blank-reference_row none none h = refl
blank-reference_row (some a) (some b) h = refl
blank-reference_row none (some b) h = cc
blank-reference_row (some a) none h = cc

blank-details :
    (show_date : ℕ → Text) (p q : Proposal)
    → is_some (execution_reference_of p) ≡ is_some (execution_reference_of q)
    → blank (details show_date p) ≡ blank (details show_date q)
unfolding details
blank-details show_date p q r =
    unfold blank in
    cc (
      blank-append (reference_row (execution_reference_of p)) (template "\n    </dl>" ∷ []),
      blank-append (reference_row (execution_reference_of q)) (template "\n    </dl>" ∷ []),
      blank-reference_row _ _ r,
    )

blank-form : (p q : Proposal) → blank (form p) ≡ blank (form q)
unfolding form blank
blank-form p q = refl

blank-form_if :
    (b : Bool) (p q : Proposal)
    → blank (if b then form p else []) ≡ blank (if b then form q else [])
blank-form_if true p q = blank-form p q
blank-form_if false p q = refl

blank-render :
    (show_date : ℕ → Text) (p q : Proposal) (error : Option String)
    → p.state ≡ q.state
    → is_some (execution_reference_of p) ≡ is_some (execution_reference_of q)
    → blank (render_proposal show_date p error) ≡ blank (render_proposal show_date q error)
unfolding render_proposal shell blank
blank-render show_date p q error s r =
    simp (blank-append, s)
      (cc
        (blank-details show_date p q r, blank-form_if (state_eq q.state pending_confirmation) p q))

-- Two proposals in the same state, both with or both without an execution reference, show pages
-- with the same number of units of markup, whatever their texts hold.
pub render_proposal-markup :
    (show_date : ℕ → Text) (p q : Proposal) (error : Option String)
    → p.state ≡ q.state
    → is_some (execution_reference_of p) ≡ is_some (execution_reference_of q)
    → markup_count (html (render_proposal show_date p error))
      ≡ markup_count (html (render_proposal show_date q error))
render_proposal-markup show_date p q error s r =
    html-markup (render_proposal show_date p error)
    ∙ (ap (λ fs. markup_count (html fs)) (blank-render show_date p q error s r)
        ∙ sym (html-markup (render_proposal show_date q error)))
