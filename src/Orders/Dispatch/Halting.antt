-- ===== src/Orders/Dispatch/Halting.antt =====
-- client/xts_api.py, `place_order`: where the dispatch of an order's chunks ends.
use xts_multi_tennant.Prelude.{
  All, Bool, Bool-cases, List, Option, Option-cases, Text, [], all, arith, codes, false,
  if◌then◌else◌, inl, inr, length, map, none, not, refl, some, subst, suc, sum, take, text_eq, true,
  ℕ, ◌&&◌, ◌<◌, ◌∷◌, ◌≡◌, ◌≤◌, ◌⊎◌,
}
use xts_multi_tennant.Orders.Ref.{format_order_ref_chunk}
use xts_multi_tennant.Orders.Dispatch.{
  Exchange, OrderResult, Outcome, accepted, stopped, Post, Sent, extend, posts_of, send_chunk,
  send_chunks, is_success, is_rejected_status, respond, settle, error_result, Response, timed_out,
  network_error, non_json, answered, recovered_answer, rms_of,
}

-- The posted quantities.
abbrev pub quantities : List Post → List ℕ
quantities posts = map (λ p. p.1) posts

-- An accepted chunk was posted.
pub accepted-acquired :
    (env : Exchange) (chunk_ref : Text) (r : OrderResult)
    → send_chunk env chunk_ref ≡ accepted r
    → env.acquired ≡ true
unfolding send_chunk
accepted-acquired env chunk_ref r h = elim (Bool-cases env.acquired) [
  | inl yes' ↦ yes'
  | inr held ↦ cc (rw held at h)
]

-- An accepted chunk has an answer of type `success`, a stopped one has not.
abbrev pub Labelled : Outcome → Type 0
Labelled (accepted r) = is_success r ≡ true
Labelled (stopped r) = is_success r ≡ false

settle-Labelled :
    (env : Exchange) (chunk_ref : Text) (answer : OrderResult)
    → Labelled (settle env chunk_ref answer)
unfolding settle text_eq
settle-Labelled env chunk_ref answer = elim (Bool-cases (is_success answer)) [
  | inr bad ↦ rw (settle, bad) bad
  | inl good ↦ elim (Bool-cases (rms_of env chunk_ref answer.app_order_id).is_rejected) [
    | inl rejected ↦ rw (settle, good, rejected) refl
    | inr fine ↦ rw (settle, good, fine) good
  ]
]

respond-Labelled :
    (env : Exchange) (chunk_ref : Text) (response : Response)
    → Labelled (respond env chunk_ref response)
unfolding respond text_eq
respond-Labelled env chunk_ref (timed_out e) = refl
respond-Labelled env chunk_ref (network_error e) = refl
respond-Labelled env chunk_ref (answered answer) = settle-Labelled env chunk_ref answer
respond-Labelled env chunk_ref non_json = elim (Option-cases (recovered_answer env chunk_ref)) [
  | inl gone ↦ rw (respond, gone) refl
  | inr (answer, e) ↦ rw (respond, e) (settle-Labelled env chunk_ref answer)
]

gated-Labelled :
    (b : Bool) (o : Outcome) (message : Text)
    → Labelled o
    → Labelled (if b then o else stopped (error_result message))
unfolding text_eq
gated-Labelled true o message h = h
gated-Labelled false o message h = refl

pub send_chunk-Labelled : (env : Exchange) (chunk_ref : Text) → Labelled (send_chunk env chunk_ref)
unfolding send_chunk
send_chunk-Labelled env chunk_ref =
    gated-Labelled env.acquired _ (codes "Rate limit exceeded")
      (respond-Labelled env chunk_ref env.response)

-- The broker's object for a dispatch, from its response or from the order book.
abbrev pub broker_answer : Exchange → Text → Response → Option OrderResult
broker_answer env chunk_ref (answered answer) = some answer
broker_answer env chunk_ref non_json = recovered_answer env chunk_ref
broker_answer env chunk_ref (timed_out e) = none
broker_answer env chunk_ref (network_error e) = none

-- The object is a success that the broker's risk management has not rejected.
abbrev pub is_kept : Exchange → Text → Option OrderResult → Bool
is_kept env chunk_ref none = false
is_kept env chunk_ref (some answer) =
    is_success answer && not (rms_of env chunk_ref answer.app_order_id).is_rejected

-- The chunk was admitted by the limiter, answered with a success and not rejected afterwards.
pub is_taken : Exchange → Text → Bool
is_taken env chunk_ref =
    env.acquired && is_kept env chunk_ref (broker_answer env chunk_ref env.response)

-- How many chunks are taken before the first that is not.
pub taken_count : (ℕ → Exchange) → Text → ℕ → List ℕ → ℕ
taken_count env order_ref idx [] = 0
taken_count env order_ref idx (quantity ∷ chunks) =
    let later = taken_count env order_ref (suc idx) chunks in
    if is_taken (env idx) (format_order_ref_chunk order_ref idx 50) then suc later else 0

count_of : Outcome → ℕ → ℕ
count_of (accepted r) n = suc n
count_of (stopped r) n = 0

settle-count :
    (env : Exchange) (chunk_ref : Text) (answer : OrderResult) (n : ℕ)
    → count_of (settle env chunk_ref answer) n
      ≡ (if is_kept env chunk_ref (some answer) then suc n else 0)
unfolding settle count_of text_eq
settle-count env chunk_ref answer n = elim (Bool-cases (is_success answer)) [
  | inr bad ↦ rw (settle, bad) refl
  | inl good ↦ elim (Bool-cases (rms_of env chunk_ref answer.app_order_id).is_rejected) [
    | inl rejected ↦ rw (settle, good, rejected) refl
    | inr fine ↦ rw (settle, good, fine) refl
  ]
]

respond-count :
    (env : Exchange) (chunk_ref : Text) (response : Response) (n : ℕ)
    → count_of (respond env chunk_ref response) n
      ≡ (if is_kept env chunk_ref (broker_answer env chunk_ref response) then suc n else 0)
unfolding respond count_of
respond-count env chunk_ref (timed_out e) n = refl
respond-count env chunk_ref (network_error e) n = refl
respond-count env chunk_ref (answered answer) n = settle-count env chunk_ref answer n
respond-count env chunk_ref non_json n = elim (Option-cases (recovered_answer env chunk_ref)) [
  | inl gone ↦ rw (respond, gone) refl
  | inr (answer, e) ↦ rw (respond, e) (settle-count env chunk_ref answer n)
]

send_chunk-count :
    (env : Exchange) (chunk_ref : Text) (n : ℕ)
    → count_of (send_chunk env chunk_ref) n ≡ (if is_taken env chunk_ref then suc n else 0)
unfolding send_chunk is_taken count_of settle recovered_answer rms_of
send_chunk-count env chunk_ref n = elim (Bool-cases env.acquired) [
  | inl admitted ↦ rw (send_chunk, admitted) (respond-count env chunk_ref env.response n)
  | inr held ↦ rw (send_chunk, held) refl
]

-- What the sent chunks are, where so many of the first were accepted: their quantities are the total,
-- and what was posted is those and at most the next one.
pub record Halts (accepted_count : ℕ) (chunks : List ℕ) (sent : Sent) : Type 0 where
  pub within : accepted_count ≤ length chunks
  pub total_is : sent.total ≡ sum (take accepted_count chunks)
  pub posted_is :
      (quantities sent.posts ≡ take accepted_count chunks)
      ⊎ (quantities sent.posts ≡ take (suc accepted_count) chunks)
  pub results_are :
      ((accepted_count ≡ length chunks) × (quantities sent.posts ≡ chunks))
      ⊎ (all (λ r. is_success r && not (is_rejected_status r)) sent.results ≡ false)
  pub failures_are : (0 < accepted_count) ⊎ All (λ r. is_success r ≡ false) sent.results

all-false : (a b : Bool) → (a && b && false) ≡ false
all-false true true = refl
all-false true false = refl
all-false false b = refl

extend-Halts :
    (n : ℕ) (env : Exchange) (chunk_ref : Text) (quantity : ℕ) (chunks : List ℕ) (o : Outcome)
    (rest : Sent)
    → ((r : OrderResult) → o ≡ accepted r → env.acquired ≡ true)
    → Labelled o
    → Halts n chunks rest
    → Halts
        (count_of o n)
        (quantity ∷ chunks)
        (extend (posts_of env chunk_ref quantity) quantity o rest)
unfolding extend count_of
extend-Halts n env chunk_ref quantity chunks (accepted r) rest posted ok h =
    rw (posted r refl) (record {
      within = omega (arith, h.within);
      total_is = rw h.total_is refl;
      posted_is = elim h.posted_is [ inl e ↦ inl (rw e refl) | inr e ↦ inr (rw e refl) ];
      results_are = elim h.results_are [
        | inl (n, e) ↦ inl (rw n refl, rw e refl)
        | inr bad ↦ inr (rw bad (all-false (is_success r) (not (is_rejected_status r))))
      ];
      failures_are = inl (omega arith);
    })
extend-Halts n env chunk_ref quantity chunks (stopped r) rest posted bad h =
    elim (Bool-cases env.acquired) [
      | inl admitted ↦ rw admitted (record {
        within = omega arith;
        total_is = refl;
        posted_is = inr refl;
        results_are = inr (rw bad refl);
        failures_are = inr (bad, tt);
      })
      | inr held ↦ rw held (record {
        within = omega arith;
        total_is = refl;
        posted_is = inl refl;
        results_are = inr (rw bad refl);
        failures_are = inr (bad, tt);
      })
    ]

module _ (env : ℕ → Exchange) (order_ref : Text) where
  -- Whatever the broker answers, the chunks go out in order and stop at the first that is not taken
  -- (admitted by the limiter, answered with a success and not rejected by the risk management): the
  -- total is the sum of those before it, what was posted is those chunks or those and the next, all
  -- chunks are posted or some result is no success, and a chunk is taken or all results are failures.
  pub send_chunks-Halts :
      (idx : ℕ) (chunks : List ℕ)
      → Halts (taken_count env order_ref idx chunks) chunks (send_chunks env order_ref idx chunks)
  unfolding send_chunks taken_count
  send_chunks-Halts idx [] = record {
    within = omega arith;
    total_is = refl;
    posted_is = inl refl;
    results_are = inl (refl, refl);
    failures_are = inr tt;
  }
  send_chunks-Halts idx (quantity ∷ chunks) =
      let chunk_ref = format_order_ref_chunk order_ref idx 50 in
      let later = taken_count env order_ref (suc idx) chunks in
      subst (λ n. Halts n (quantity ∷ chunks) (send_chunks env order_ref idx (quantity ∷ chunks)))
        (send_chunk-count (env idx) chunk_ref later)
        (extend-Halts later (env idx) chunk_ref quantity chunks _ _
          (accepted-acquired (env idx) chunk_ref) (send_chunk-Labelled (env idx) chunk_ref)
          (send_chunks-Halts (suc idx) chunks))
