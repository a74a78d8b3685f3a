-- ===== src/Domain/Registry/Laws.antt =====
-- New proposals and retries of registry.ts.
use pooli.Base.{
  true, false, [], ◌∷◌, none, some, Text, trim, is_empty, text_eq, text_eq_refl, ◌≡◌, ◌≢◌, inl, inr,
  refl, ap, arith, Bool-cases, Option-cases, if◌then◌else◌,
}
use pooli.Base.Dict.{lookup, insert, lookup-insert, lookup-insert_self}
use pooli.Domain.Platform.{Platform}
use pooli.Domain.Types.{Proposal, MessageDraftPayload, Result, ok, fail}
use pooli.Domain.Machine.{create_proposal}
use pooli.Domain.Validation.{validate_message_draft}
use pooli.Domain.Store.{Store, get, find_by_idempotency_key, insert_proposal}
use pooli.Domain.Registry.{
  Draw, ProposeInput, ProposeOutput, inserted, propose_from, propose_valid, propose,
}

-- What a first proposal returns and stores.
pub record IsFresh (env : Platform) (input : ProposeInput) (draw : Draw) (st st' : Store)
    (out : ProposeOutput) : Type 0 where
  pub payload : MessageDraftPayload
  pub valid : validate_message_draft env input.payload ≡ ok payload
  pub key : is_empty (trim input.idempotency_key) ≡ false
  pub created :
      out.proposal
      ≡ create_proposal env (record {
        id = draw.new_id;
        payload = payload;
        link_code = draw.new_link_code;
        idempotency_key = input.idempotency_key;
        ttl_seconds = draw.ttl_seconds;
        now = draw.now;
      })
  pub link_code : out.link_code ≡ draw.new_link_code
  pub unused : get st draw.new_id ≡ none
  pub stored :
      (id : Text) → get st' id ≡ (if text_eq draw.new_id id then some out.proposal else get st id)
  pub indexed : lookup input.idempotency_key st'.by_idempotency ≡ some draw.new_id

insert_proposal_ok :
    (st st' : Store) (p q : Proposal)
    → insert_proposal st p ≡ (st', ok q)
    → (q ≡ p)
      × (get st p.id ≡ none)
      × (st' ≡ record {
        by_id = insert p.id p st.by_id;
        by_idempotency = insert p.idempotency_key p.id st.by_idempotency;
      })
unfolding insert_proposal get
insert_proposal_ok st st' p q h = (ground arith, ground arith, ground arith)

inserted_ok :
    (code : Text) (r : Store × Result Proposal) (st' : Store) (out : ProposeOutput)
    → inserted code r ≡ (st', ok out)
    → (r ≡ (st', ok out.proposal)) × (out.link_code ≡ code) × (out.deduplicated ≡ false)
inserted_ok code (st, ok p) st' out h = (ground arith, ground arith, ground arith)
inserted_ok code (st, fail e) st' out h =
    absurd (cc (ap (λ (r : Store × Result ProposeOutput). r.1) h))

propose_from-IsFresh :
    (env : Platform) (input : ProposeInput) (payload : MessageDraftPayload) (draw : Draw)
    (st st' : Store) (out : ProposeOutput)
    → validate_message_draft env input.payload ≡ ok payload
    → is_empty (trim input.idempotency_key) ≡ false
    → propose_from env payload input.idempotency_key draw none st ≡ (st', ok out)
    → IsFresh env input draw st st' out
unfolding propose_from create_proposal get
propose_from-IsFresh env input payload draw st st' out v k h =
    let (e, c, _) = inserted_ok draw.new_link_code _ st' out h in
    let (same, unused, result) = insert_proposal_ok st st' _ out.proposal e in
    record {
      payload = payload;
      valid = v;
      key = k;
      created = same;
      link_code = c;
      unused = unused;
      stored = λ id. rw (result, same) (lookup-insert draw.new_id id _ st.by_id);
      indexed = rw result (lookup-insert_self input.idempotency_key draw.new_id st.by_idempotency);
    }

not_duplicate :
    (env : Platform) (payload : MessageDraftPayload) (key : Text) (draw : Draw)
    (existing : Proposal) (st st' : Store) (out : ProposeOutput)
    → out.deduplicated ≡ false
    → propose_from env payload key draw (some existing) st ≡ (st', ok out)
    → ⊥
unfolding propose_from
not_duplicate env payload key draw existing st st' out d h = ground arith

-- What `propose` has done when it returns a proposal that is not a duplicate.
pub propose-IsFresh :
    (env : Platform) (input : ProposeInput) (draw : Draw) (st st' : Store) (out : ProposeOutput)
    → propose env input draw st ≡ (st', ok out)
    → out.deduplicated ≡ false
    → IsFresh env input draw st st' out
unfolding propose
propose-IsFresh env input draw st st' out h d = go (validate_message_draft env input.payload) refl h
  where
    go :
        (v : Result MessageDraftPayload)
        → validate_message_draft env input.payload ≡ v
        → propose_valid env input.idempotency_key draw st v ≡ (st', ok out)
        → IsFresh env input draw st st' out
    go (fail e) v h' = absurd (ground arith)
    go (ok payload) v h' = elim (Bool-cases (is_empty (trim input.idempotency_key))) [
      | inl blank ↦ absurd (ground arith)
      | inr key ↦ elim (Option-cases (find_by_idempotency_key st input.idempotency_key)) [
        | inr (existing, found) ↦ absurd (
            not_duplicate env payload input.idempotency_key draw existing st st' out d
              (rw (key, found) at h'))
        | inl unseen ↦
            propose_from-IsFresh env input payload draw st st' out v key (rw (key, unseen) at h')
      ]
    ]

find-indexed :
    (st : Store) (key id : Text) (p : Proposal)
    → id ≢ []
    → lookup key st.by_idempotency ≡ some id
    → get st id ≡ some p
    → find_by_idempotency_key st key ≡ some p
unfolding find_by_idempotency_key get
find-indexed st key [] p n k g = absurd (n refl)
find-indexed st key (c ∷ id) p n k g = rw k g

-- Once a key has made a proposal with an id that is not empty, every valid call with that key
-- returns that proposal as a duplicate, without its code, and leaves the store unchanged.
pub propose_retry :
    (env : Platform) (input again : ProposeInput) (draw draw' : Draw) (st st' : Store)
    (out : ProposeOutput) (payload : MessageDraftPayload)
    → propose env input draw st ≡ (st', ok out)
    → out.deduplicated ≡ false
    → draw.new_id ≢ []
    → again.idempotency_key ≡ input.idempotency_key
    → validate_message_draft env again.payload ≡ ok payload
    → propose env again draw' st'
      ≡ (st', ok (record { proposal = out.proposal; link_code = []; deduplicated = true }))
propose_retry env input again draw draw' st st' out payload h d n k v =
    let f = propose-IsFresh env input draw st st' out h d in
    let seen : find_by_idempotency_key st' input.idempotency_key ≡ some out.proposal =
      find-indexed st' input.idempotency_key draw.new_id out.proposal n f.indexed
        (rw (f.stored draw.new_id, text_eq_refl draw.new_id) refl) in
    unfold propose propose_from in rw (v, k, f.key, seen) refl
