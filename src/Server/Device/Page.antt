-- ===== src/Server/Device/Page.antt =====
-- The page of the device in apps/action-gateway/server.mjs, as fragments of text and escaped values.
use Prim.Native.String
use pooli.Base.{List, [], ◌∷◌, ◌++◌, String, Text, take}
use mathlib.Core.List.{reverse}
use pooli.Http.Page.{Fragment, template, value}
use pooli.Server.{OutboxEntry}

head_lines : List String
head_lines =
    "<!doctype html>" ∷ "<html lang=\"en\"><head>"
    ∷ "<meta charset=\"utf-8\"><meta name=\"viewport\" content=\"width=device-width,initial-scale=1\">"
    ∷ "<meta name=\"robots\" content=\"noindex,nofollow\">"
    ∷ "<meta http-equiv=\"refresh\" content=\"5\">" ∷ "<title>Messages</title>" ∷ "<style>"
    ∷ "  :root { color-scheme: light dark; }"
    ∷ "  body { margin:0; padding:1.5rem 1rem; font:16px/1.5 system-ui,-apple-system,sans-serif;"
    ∷ "         background:#f4f5f7; display:flex; justify-content:center; }"
    ∷ "  @media (prefers-color-scheme: dark) { body { background:#15171a; color:#e8e8ea; } }"
    ∷ "  .phone { width:100%; max-width:22rem; }"
    ∷ "  h1 { font-size:.8rem; text-transform:uppercase; letter-spacing:.08em; color:#888; margin:0 0 1rem; }"
    ∷ "  .msg { background:#fff; border-radius:14px; padding:.9rem 1rem; margin-bottom:.75rem;"
    ∷ "         box-shadow:0 1px 2px rgba(0,0,0,.1); }"
    ∷ "  @media (prefers-color-scheme: dark) { .msg { background:#1e2126; } }"
    ∷ "  .from { font-size:.75rem; color:#888; margin-bottom:.3rem; }"
    ∷ "  .code { font:600 2rem/1 ui-monospace,SFMono-Regular,Menlo,monospace; letter-spacing:.25em; margin:.4rem 0; }"
    ∷ "  .body { font-size:.85rem; color:#555; word-break:break-word; }"
    ∷ "  @media (prefers-color-scheme: dark) { .body { color:#9aa0a6; } }"
    ∷ "  .empty { color:#888; font-size:.9rem; }"
    ∷ "  .clear { margin-top:1.25rem; text-align:center; }"
    ∷ "  .clear button { font:inherit; font-size:.8rem; color:#888; background:none;"
    ∷ "                  border:0; padding:.4rem; cursor:pointer; text-decoration:underline; }"
    ∷ "</style>" ∷ "</head><body><main class=\"phone\">" ∷ "<h1>Bank &middot; messages</h1>" ∷ []

-- The lines, each with its end.
unlines : List String → String
unlines [] = ""
unlines (l ∷ ls) = String.◌++◌ l (String.◌++◌ "\n" (unlines ls))

unfoldable pub page_head : String
unfolding head_lines unlines
page_head = unlines head_lines

-- `time` is the text of `new Date(m.ts).toLocaleTimeString()`.
abbrev pub bubble : (time : Text → Text) → OutboxEntry → List Fragment
bubble time m =
    template "\n  <div class=\"msg\">\n    <div class=\"from\">Bank alerts &middot; "
    ∷ value (time m.ts)
    ∷ template "</div>\n    <div class=\"code\">"
    ∷ value m.link_code
    ∷ template "</div>\n    <div class=\"body\">"
    ∷ value m.order_slug
    ∷ template " &middot; approve at /p/"
    ∷ value m.proposal_id
    ∷ template "</div>\n  </div>"
    ∷ []

unfoldable pub bubbles : (time : Text → Text) → List OutboxEntry → List Fragment
bubbles time [] = []
bubbles time (m ∷ ms) = bubble time m ++ bubbles time ms

abbrev pub page_body : (time : Text → Text) → List OutboxEntry → List Fragment
page_body time [] = template "<p class=\"empty\">No messages yet.</p>" ∷ template "\n" ∷ []
page_body time (m ∷ ms) =
    bubbles time (m ∷ ms)
    ++ template
        "\n<form class=\"clear\" method=\"post\" action=\"/demo/device/clear\">\n  <button type=\"submit\">Clear messages</button>\n</form>"
      ∷ []

unfoldable pub device_page : (time : Text → Text) → List OutboxEntry → List Fragment
device_page time ms =
    template page_head ∷ (page_body time ms ++ template "\n</main></body></html>" ∷ [])

-- The messages that are shown: the last five, the newest first.
unfoldable pub shown : List OutboxEntry → List OutboxEntry
shown entries = take 5 (reverse entries)
