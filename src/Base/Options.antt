-- ===== src/Base/Options.antt =====
-- Optional texts, `none` for undefined and null, and what JavaScript's operators make of them.
use mathlib.Core.Bool.{Bool, false, ◌&&◌}
use mathlib.Core.List.{[], ◌∷◌}
use mathlib.Core.Option.{Option, none, some}
use pooli.Base.Tests.{if◌then◌else◌, ◌==◌}
use pooli.Base.Strings.{Text, is_empty, text_eq}

-- `String(x ?? d)`
abbrev pub or_else : Text → Option Text → Text
or_else d none = d
or_else d (some s) = s

-- `x || ""`
abbrev pub or_empty : Option Text → Text
or_empty none = []
or_empty (some s) = s

-- A falsy text counts as none.
abbrev pub truthy : Option Text → Option Text
truthy none = none
truthy (some s) = if is_empty s then none else some s

-- `x || d`
abbrev pub text_or : Text → Text → Text
text_or x d = if is_empty x then d else x

-- `x === s`
abbrev pub is_text : Option Text → Text → Bool
is_text none s = false
is_text (some t) s = text_eq t s

-- `s.replace(/\/$/, '')`
unfoldable pub drop_slash : Text → Text
drop_slash [] = []
drop_slash (c ∷ []) = if c == b'/' then [] else c ∷ []
drop_slash (c ∷ d ∷ s) = c ∷ drop_slash (d ∷ s)

-- `s.replace(/\/+$/, '')`
unfoldable pub drop_slashes : Text → Text
drop_slashes [] = []
drop_slashes (c ∷ s) =
    let rest = drop_slashes s in if c == b'/' && is_empty rest then [] else c ∷ rest
