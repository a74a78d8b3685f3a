-- ===== src/OAuth/Requests.antt =====
-- Sequences of requests to the authorization server of apps/action-gateway/oauth.mjs. The one `await`
-- of a handler is for a signature, behind the removal of what is redeemed, so a request is one step.
use pooli.Base.{ℕ, Bool, List, [], ◌∷◌, Option, Text}
use pooli.Domain.Platform.{Platform}
use pooli.OAuth.{
  Site, State, Registration, RegisterReply, register, AuthorizeQuery, AuthorizeReply, authorize,
}
use pooli.OAuth.Token.{Codec, Fields, Draw, TokenReply, token}

-- A request with what is drawn for it.
pub data Request : Type 0 where
  registering : Registration → (new_id : Text) (now : ℕ) → Request
  authorizing : Site → AuthorizeQuery → (code : Text) (now : ℕ) → Request
  exchanging : Site → (body query : Fields) → (authorization : Option Text) → Draw → Request

pub data Reply : Type 0 where
  to_register : RegisterReply → Reply
  to_authorize : AuthorizeReply → Reply
  to_token : TokenReply → Reply

module _ (env : Platform) (codec : Codec) (is_url : Text → Bool) where
  unfoldable pub handle : Request → State → State × Reply
  handle (registering body new_id now) s =
      let (s', r) = register body new_id now s in (s', to_register r)
  handle (authorizing site q code now) s =
      let (s', r) = authorize is_url site q code now s in (s', to_authorize r)
  handle (exchanging site body query authorization draw) s =
      let (s', r) = token env codec site body query authorization draw s in (s', to_token r)

  unfoldable pub run : List Request → State → State
  run [] s = s
  run (e ∷ es) s = run es (handle e s).0
