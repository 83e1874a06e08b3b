-- ===== src/Orders/Dispatch/Summary.antt =====
-- client/xts_api.py, `place_order`: what the answer to a live order says of the quantity that was
-- posted to the broker.
use xts_multi_tennant.Prelude.{
  All, Bool-cases, List, Text, [], arith, codes, false, inl, inr, length, ltb, refl, subst, suc,
  sum, take, text_eq, true, zero, ℕ, ◌<◌, ◌∷◌, ◌≡◌, ◌≤◌, ◌⊎◌,
}
use xts_multi_tennant.Orders.Dispatch.{
  Exchange, OrderResult, Outcome, accepted, stopped, Sent, posts_of, send_chunk, send_chunks,
  all_ok, is_success, is_rejected_status, result_of, summarize, execute_live, failure_of, first_or,
  error_result,
}
use xts_multi_tennant.Orders.Dispatch.Halting.{
  Halts, quantities, accepted-acquired, Labelled, send_chunk-Labelled, send_chunks-Halts,
}

sum-take : (n : ℕ) (xs : List ℕ) → sum (take n xs) ≤ sum xs
sum-take zero xs = omega arith
sum-take (suc n) [] = omega arith
sum-take (suc n) (x ∷ xs) = omega (arith, sum-take n xs)

Halts-bounded :
    (n : ℕ) (chunks : List ℕ) (sent : Sent)
    → Halts n chunks sent
    → sum (quantities sent.posts) ≤ sum chunks
Halts-bounded n chunks sent h = elim h.posted_is [
  | inl e ↦ rw e (sum-take n chunks)
  | inr e ↦ rw e (sum-take (suc n) chunks)
]

failure_of-fails :
    (default : OrderResult) (rs : List OrderResult)
    → is_success default ≡ false
    → All (λ r. is_success r ≡ false) rs
    → is_success (failure_of default rs) ≡ false
unfolding failure_of
failure_of-fails default [] d h = d
failure_of-fails default (r ∷ rs) d h = elim (Bool-cases (is_rejected_status r)) [
  | inl e ↦ rw e h.0
  | inr e ↦ rw e (failure_of-fails default rs d h.1)
]

first_or-fails :
    (default : OrderResult) (rs : List OrderResult)
    → is_success default ≡ false
    → All (λ r. is_success r ≡ false) rs
    → is_success (first_or default rs) ≡ false
first_or-fails default [] d h = d
first_or-fails default (r ∷ rs) d h = h.0

none_accepted :
    (n : ℕ) (chunks : List ℕ)
    → All (λ c. 0 < c) chunks
    → sum (take n chunks) ≡ 0
    → n ≤ length chunks
    → n ≡ 0
none_accepted zero chunks p z w = refl
none_accepted (suc n) [] p z w = absurd (omega (arith, w))
none_accepted (suc n) (c ∷ chunks) p z w = absurd (omega (arith, p.0, z))

failed_lem :
    (n : ℕ) (sent : Sent)
    → ((0 < n) ⊎ All (λ r. is_success r ≡ false) sent.results)
    → n ≡ 0
    → All (λ r. is_success r ≡ false) sent.results
failed_lem n sent (inl h) z = absurd (omega (arith, h, z))
failed_lem n sent (inr h) z = h

-- A success among the answers for several chunks means that all of them were posted.
summarize-success :
    (n qty : ℕ) (chunks : List ℕ) (sent : Sent)
    → All (λ c. 0 < c) chunks
    → Halts n chunks sent
    → is_success (summarize qty (length chunks) sent) ≡ true
    → quantities sent.posts ≡ chunks
unfolding summarize all_ok text_eq
summarize-success n qty chunks sent p h s = elim h.results_are [
  | inl e ↦ e.1
  | inr bad ↦ elim (Bool-cases (ltb 0 sent.total)) [
    | inl some_sent ↦ cc (rw (bad, some_sent) at s)
    | inr nothing ↦
        let z : n ≡ 0 = none_accepted n chunks p (ground (arith, h.total_is)) h.within in
        let fails = failed_lem n sent h.failures_are z in
        let d = error_result (codes "Order slicing dispatch failed") in
        let f : is_success (failure_of (first_or d sent.results) sent.results) ≡ false =
          failure_of-fails (first_or d sent.results) sent.results
            (first_or-fails d sent.results refl fails) fails in
        let t : is_success (failure_of (first_or d sent.results) sent.results) ≡ true =
          rw (bad, nothing) at s in
        cc
  ]
]

module _ (env : ℕ → Exchange) (order_ref : Text) (execution_qty : ℕ) where
  single-bounded :
      (idx : ℕ) (ref : Text)
      → sum (quantities (posts_of (env idx) ref execution_qty)) ≤ execution_qty
  single-bounded idx ref = elim (Bool-cases (env idx).acquired) [
    | inl e ↦ rw e (omega arith)
    | inr e ↦ rw e (omega arith)
  ]

  -- No more than the order's quantity is posted, whatever the broker answers.
  pub execute_live-bounded :
      (chunks : List ℕ)
      → sum chunks ≡ execution_qty
      → sum (quantities (execute_live env order_ref execution_qty chunks).1) ≤ execution_qty
  unfolding execute_live send_chunks
  execute_live-bounded [] h = omega (arith, h)
  execute_live-bounded (c ∷ []) h = single-bounded 1 _
  execute_live-bounded (c ∷ d ∷ chunks) h =
      rw (← h)
        (Halts-bounded _ (c ∷ d ∷ chunks) _ (send_chunks-Halts env order_ref 1 (c ∷ d ∷ chunks)))

  single-success :
      (ref : Text) (o : Outcome)
      → send_chunk (env 1) ref ≡ o
      → is_success (result_of o) ≡ true
      → sum (quantities (posts_of (env 1) ref execution_qty)) ≡ execution_qty
  single-success ref (accepted r) e s = rw (accepted-acquired (env 1) ref r e) (omega arith)
  single-success ref (stopped r) e s =
      let l : Labelled (stopped r) = subst Labelled e (send_chunk-Labelled (env 1) ref) in cc

  -- An answer of type `success` means that exactly the order's quantity was posted.
  pub execute_live-success :
      (chunks : List ℕ)
      → All (λ c. 0 < c) chunks
      → sum chunks ≡ execution_qty
      → is_success (execute_live env order_ref execution_qty chunks).0 ≡ true
      → sum (quantities (execute_live env order_ref execution_qty chunks).1) ≡ execution_qty
  unfolding execute_live send_chunks
  execute_live-success [] p h s = h
  execute_live-success (c ∷ []) p h s = single-success _ _ refl s
  execute_live-success (c ∷ d ∷ chunks) p h s =
      let sent = send_chunks env order_ref 1 (c ∷ d ∷ chunks) in
      let all_posted : quantities sent.posts ≡ c ∷ d ∷ chunks =
        summarize-success _ execution_qty (c ∷ d ∷ chunks) sent p
          (send_chunks-Halts env order_ref 1 (c ∷ d ∷ chunks)) s in
      rw all_posted h
