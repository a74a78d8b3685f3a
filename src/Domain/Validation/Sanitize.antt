-- ===== src/Domain/Validation/Sanitize.antt =====
-- `sanitizeBody` of validation.ts: controls become spaces, runs of spaces one space, the ends go.
use pooli.Base.{ℕ, Bool, false, ◌&&◌, ◌||◌, [], ◌∷◌, map, Text, is_space, trim, leb, if◌then◌else◌}

-- `[\u0000-\u001F\u007F-\u009F]`
abbrev pub is_control : ℕ → Bool
is_control c = leb c 0x1f || (leb 0x7f c && leb c 0x9f)

-- `.replace(/[\u0000-\u001F\u007F-\u009F]/g, ' ')`, for one unit
abbrev pub blank_control : ℕ → ℕ
blank_control c = if is_control c then 32 else c

-- `.replace(/\s+/g, ' ')`; the flag says that the unit before was a space, whose run is written.
unfoldable pub collapse : Bool → Text → Text
collapse in_run [] = []
collapse in_run (c ∷ s) =
    let rest = collapse (is_space c) s in
    if is_space c then (if in_run then rest else 32 ∷ rest) else c ∷ rest

unfoldable pub sanitize_body : Text → Text
unfolding collapse trim is_space
sanitize_body raw = trim (collapse false (map blank_control raw))
