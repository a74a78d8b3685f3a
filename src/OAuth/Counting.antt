-- ===== src/OAuth/Counting.antt =====
-- How many requests to oauth.mjs of a kind are answered with a token.
use pooli.Base.{
  ℕ, suc, ◌≤◌, Bool, true, false, ◌&&◌, List, [], ◌∷◌, Text, All, if◌then◌else◌, Bool-cases, ◌≡◌,
  inl, inr, refl, arith,
}
use pooli.Domain.Platform.{Platform}
use pooli.OAuth.{State}
use pooli.OAuth.Token.{Codec}
use pooli.OAuth.Requests.{Request, Reply, to_token, handle}
use pooli.OAuth.Redeeming.{is_granted}

abbrev pub succeeds : Reply → Bool
succeeds (to_token r) = is_granted r
succeeds r = false

module _ (env : Platform) (codec : Codec) (is_url : Text → Bool) where
  -- How many of the requests that pass a test are answered with a token.
  unfoldable pub successes : (Request → Bool) → List Request → State → ℕ
  successes test [] s = 0
  successes test (e ∷ es) s =
      let (s', r) = handle env codec is_url e s in
      let rest = successes test es s' in if test e && succeeds r then suc rest else rest

  -- Something that is spent stays spent and opens nothing.
  pub record IsSpending (test : Request → Bool) (P : Request → Type 0) (spent : State → Type 0)
      : Type 0 where
    pub keeps : (e : Request) (s : State) → P e → spent s → spent (handle env codec is_url e s).0
    pub refused :
        (e : Request) (s : State)
        → spent s
        → test e ≡ true
        → succeeds (handle env codec is_url e s).1 ≡ false
    pub spends :
        (e : Request) (s : State)
        → P e
        → test e ≡ true
        → succeeds (handle env codec is_url e s).1 ≡ true
        → spent (handle env codec is_url e s).0

  successes-none :
      (test : Request → Bool) (P : Request → Type 0) (spent : State → Type 0) (es : List Request)
      (s : State)
      → IsSpending test P spent
      → All P es
      → spent s
      → successes test es s ≡ 0
  unfolding successes
  successes-none test P spent [] s h ps sp = refl
  successes-none test P spent (e ∷ es) s h (p, ps) sp =
      let rest =
        successes-none test P spent es (handle env codec is_url e s).0 h ps (h.keeps e s p sp) in
      ground (arith, rest, h.refused e s sp)

  pub successes-once :
      (test : Request → Bool) (P : Request → Type 0) (spent : State → Type 0) (es : List Request)
      (s : State)
      → IsSpending test P spent
      → All P es
      → successes test es s ≤ 1
  unfolding successes
  successes-once test P spent [] s h ps = omega arith
  successes-once test P spent (e ∷ es) s h (p, ps) =
      elim (Bool-cases (test e && succeeds (handle env codec is_url e s).1)) [
        | inl hit ↦
            let gone = h.spends e s p (ground arith) (ground arith) in
            let rest = successes-none test P spent es (handle env codec is_url e s).0 h ps gone in
            rw (hit, rest) (omega arith)
        | inr miss ↦ rw miss (successes-once test P spent es (handle env codec is_url e s).0 h ps)
      ]
