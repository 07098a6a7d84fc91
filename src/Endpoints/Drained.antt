-- ===== src/Endpoints/Drained.antt =====
-- src/driver/endpoints.c, DeckBtDrainStream: where the packets of the event and ACL streams go.
use virt_bth_usb.Common.{
  ℕ, ◌≡◌, ◌≢◌, ◌⊎◌, refl, sym, ap, ◌∙◌, inl, inr, arith, true, not, Option, none, some, either,
  cases,
}
use virt_bth_usb.Common.{List, [], ◌∷◌, ◌++◌, append_assoc, ltb, length}
use virt_bth_usb.Bridge.Inbound.{Stream}
use virt_bth_usb.Bridge.Delivery.{poll_queue}
use virt_bth_usb.Endpoints.{Polled, Completion, failed, empty, sent, drain, answer}

-- The packets handed over by completions.
abbrev pub handed : List Completion → List (List ℕ)
handed [] = []
handed (failed ∷ done) = handed done
handed (empty ∷ done) = handed done
handed (sent p ∷ done) = p ∷ handed done

taken : Option (List ℕ) → List (List ℕ)
taken none = []
taken (some p) = p ∷ []

handed-answer :
    (o : Option (List ℕ)) (done : List Completion)
    → handed (answer o ∷ done) ≡ taken o ++ handed done
unfolding taken
handed-answer none done = refl
handed-answer (some p) done = refl

-- On the event and ACL streams a poll takes the front of the queue or nothing.
poll_queue-taken :
    (s : Stream) (capacity : ℕ) (q : List (List ℕ))
    → s ≢ Stream.sco
    → taken (poll_queue s capacity q).1 ++ (poll_queue s capacity q).0 ≡ q
unfolding taken poll_queue
poll_queue-taken s capacity [] h = refl
poll_queue-taken Stream.sco capacity (p ∷ q) h = absurd (h refl)
poll_queue-taken Stream.event capacity (p ∷ q) h =
    either (λ (r : List (List ℕ) × Option (List ℕ)). taken r.1 ++ r.0 ≡ p ∷ q)
      (ltb capacity (length p)) refl refl
poll_queue-taken Stream.acl capacity (p ∷ q) h =
    either (λ (r : List (List ℕ) × Option (List ℕ)). taken r.1 ++ r.0 ≡ p ∷ q)
      (ltb capacity (length p)) refl refl

none_queued : (q : List (List ℕ)) → not (ltb 0 (length q)) ≡ true → q ≡ []
none_queued [] h = refl
none_queued (p ∷ q) h = absurd (ground (arith, h))

module _ {T : Type 0} {s : Stream} (ops : Polled T s) where
  -- The packets handed over and those still queued are the queue before, in order; and the loop
  -- ends because no request or no packet is left.
  pub record Drained (t : T) (r : T × List (Option ℕ) × List Completion) : Type 0 where
    pub in_order : handed r.2 ++ ops.queued r.0 ≡ ops.queued t
    pub exhausted : (r.1 ≡ []) ⊎ (ops.queued r.0 ≡ [])

  idle-Drained :
      (t : T) (requests : List (Option ℕ)) → not (ops.has t) ≡ true → Drained t (t, requests, [])
  idle-Drained t requests h = record {
    in_order = refl;
    exhausted = inr (none_queued (ops.queued t) (ap not (sym (ops.has-queued t)) ∙ h));
  }

  -- Draining the event or the ACL stream hands its packets, whole and in order, to the requests
  -- posted for it, and does not stop while there are both: for any transport whose stream is
  -- polled like a queue.
  pub drain-Drained :
      (t : T) (requests : List (Option ℕ)) → s ≢ Stream.sco → Drained t (drain ops t requests)
  unfolding drain
  drain-Drained t [] h = record { in_order = refl; exhausted = inl refl }
  drain-Drained t (none ∷ requests) h =
      let rest = drain-Drained t requests h in
      cases (Drained t) (not (ops.has t)) (idle-Drained t (none ∷ requests))
        (λ _. record { in_order = rest.in_order; exhausted = rest.exhausted })
  drain-Drained t (some capacity ∷ requests) h =
      let r = ops.pop t capacity in
      let rest = drain-Drained r.0 requests h in
      let polled = ops.pop-queued t capacity in
      let order : handed (answer r.1 ∷ (drain ops r.0 requests).2)
            ++ ops.queued (drain ops r.0 requests).0
          ≡ ops.queued t =
        ap (λ xs. xs ++ ops.queued (drain ops r.0 requests).0)
          (handed-answer r.1 (drain ops r.0 requests).2)
        ∙ append_assoc (taken r.1) (handed (drain ops r.0 requests).2)
            (ops.queued (drain ops r.0 requests).0)
        ∙ ap (λ xs. taken r.1 ++ xs) rest.in_order
        ∙ ap (λ (k : List (List ℕ) × Option (List ℕ)). taken k.1 ++ k.0) polled
        ∙ poll_queue-taken s capacity (ops.queued t) h in
      cases (Drained t) (not (ops.has t)) (idle-Drained t (some capacity ∷ requests))
        (λ _. record { in_order = order; exhausted = rest.exhausted })
