-- ===== src/OAuth/SingleUse.antt =====
-- How often a code or a refresh token is exchanged over any sequence of requests to oauth.mjs.
use pooli.Base.{◌≤◌, Bool, List, Text, All}
use pooli.Domain.Platform.{Platform}
use pooli.OAuth.{State}
use pooli.OAuth.Token.{Codec}
use pooli.OAuth.Requests.{Request}
use pooli.OAuth.Counting.{successes, successes-once}
use pooli.OAuth.SpentCodes.{presents_code, DrawsNoCode, CodeSpent, code-IsSpending}
use pooli.OAuth.SpentTokens.{presents_refresh, DrawsNoRefresh, RefreshSpent, refresh-IsSpending}

-- Over any sequence of requests that draw a text neither as a code nor as a refresh token, at most
-- one of the token requests that present it as their code is answered with a token, and at most one
-- of those that present it as their refresh token.
pub redeemed_once :
    (env : Platform) (codec : Codec) (is_url : Text → Bool) (c : Text) (es : List Request)
    (s : State)
    → All (DrawsNoCode c) es
    → All (DrawsNoRefresh c) es
    → (successes env codec is_url (presents_code env codec c) es s ≤ 1)
      × (successes env codec is_url (presents_refresh env codec c) es s ≤ 1)
redeemed_once env codec is_url c es s no_code no_refresh =
    let code = code-IsSpending env codec is_url c in
    let token = refresh-IsSpending env codec is_url c in
    (
      successes-once env codec is_url (presents_code env codec c) (DrawsNoCode c) (CodeSpent c) es s
          code no_code,
      successes-once env codec is_url (presents_refresh env codec c) (DrawsNoRefresh c)
          (RefreshSpent c) es s token no_refresh,
    )
