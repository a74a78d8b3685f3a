-- ===== src/Http/Page/Style.antt =====
-- `STYLE` of apps/action-gateway/src/http/confirmation-page.ts, line by line.
use Prim.Native.String
use pooli.Base.{String, List, [], ◌∷◌}

style_lines : List String
style_lines =
    "  :root { color-scheme: light dark; }" ∷ "  * { box-sizing: border-box; }"
    ∷ "  body { margin:0; padding:2rem 1rem; font:16px/1.5 system-ui,-apple-system,Segoe UI,sans-serif;"
    ∷ "         background:#f4f5f7; color:#111; display:flex; justify-content:center; }"
    ∷ "  @media (prefers-color-scheme: dark) { body { background:#15171a; color:#e8e8ea; } }"
    ∷ "  .card { width:100%; max-width:26rem; background:#fff; border-radius:14px; padding:1.5rem;"
    ∷ "          box-shadow:0 1px 3px rgba(0,0,0,.12),0 8px 24px rgba(0,0,0,.08); }"
    ∷ "  @media (prefers-color-scheme: dark) { .card { background:#1e2126; } }"
    ∷ "  h1 { font-size:1.15rem; margin:0 0 .25rem; }"
    ∷ "  .sub { color:#666; font-size:.875rem; margin:0 0 1.25rem; }"
    ∷ "  @media (prefers-color-scheme: dark) { .sub { color:#9aa0a6; } }"
    ∷ "  .draft { white-space:pre-wrap; font-size:.95rem; padding:1rem; background:#f8f9fb; border-radius:10px;"
    ∷ "           margin:.75rem 0 1rem; border:1px solid #e2e5ea; }"
    ∷ "  @media (prefers-color-scheme: dark) { .draft { background:#12151a; border-color:#2a2f38; } }"
    ∷ "  dl { margin:0 0 1.25rem; display:grid; grid-template-columns:auto 1fr; gap:.5rem 1rem; font-size:.9rem; }"
    ∷ "  dt { color:#666; } dd { margin:0; text-align:right; word-break:break-all; }"
    ∷ "  @media (prefers-color-scheme: dark) { dt { color:#9aa0a6; } }"
    ∷ "  .badge { display:inline-block; padding:.2rem .6rem; border-radius:999px; font-size:.75rem; font-weight:600; }"
    ∷ "  .pending { background:#fff4d6; color:#7a5200; }"
    ∷ "  .ok { background:#d8f5e0; color:#0f5132; }"
    ∷ "  .bad { background:#fadbd8; color:#7a1c12; }"
    ∷ "  label { display:block; font-size:.85rem; font-weight:600; margin:1rem 0 .35rem; }"
    ∷ "  input { width:100%; padding:.7rem; font-size:1.35rem; letter-spacing:.35em; text-align:center;"
    ∷ "          text-transform:uppercase; border:1px solid #ccc; border-radius:8px; background:transparent;"
    ∷ "          color:inherit; font-family:ui-monospace,SFMono-Regular,Menlo,monospace; }"
    ∷ "  .row { display:flex; gap:.6rem; margin-top:1rem; }"
    ∷ "  button { flex:1; padding:.75rem; font-size:.95rem; font-weight:600; border-radius:8px;"
    ∷ "           border:1px solid transparent; cursor:pointer; }"
    ∷ "  .approve { background:#0a7d3c; color:#fff; }"
    ∷ "  .decline { background:transparent; border-color:#ccc; color:inherit; }"
    ∷ "  .warn { margin-top:1.25rem; padding:.7rem .8rem; border-left:3px solid #d9a406;"
    ∷ "          background:#fffaf0; font-size:.8rem; color:#5a4300; border-radius:0 6px 6px 0; }"
    ∷ "  @media (prefers-color-scheme: dark) { .warn { background:#2a2418; color:#e0c98a; } }"
    ∷ "  .err { margin-top:1rem; padding:.7rem .8rem; background:#fadbd8; color:#7a1c12;"
    ∷ "         border-radius:8px; font-size:.85rem; }" ∷ []

-- The lines, each with its end.
unlines : List String → String
unlines [] = ""
unlines (l ∷ ls) = String.◌++◌ l (String.◌++◌ "\n" (unlines ls))

-- The template literal begins with a line break.
unfoldable pub style : String
unfolding style_lines unlines
style = String.◌++◌ "\n" (unlines style_lines)
