-- ===== src/Outcomes/Retrying.antt =====
-- `retry` of refund.service.ts where nothing stands in its way.
use help_mi.Common.{
  ℕ, suc, ◌+◌, ◌≤◌, ◌≡◌, refl, sym, ap, ◌∙◌, String, none, some, Bool, true, false, not, ◌&&◌, ◌==◌,
  List, [], ◌∷◌, ◌++◌, arith, nat_eq, concat, eq_refl,
}
use mathlib.Core.Path.{ap₂}
use mathlib.Core.Bool.{true≢false}
use help_mi.Schema.{Refund, Escrow, RefundStatus, EscrowStatus, refund_is}
use help_mi.Database.{find_first, update_rows, count_rows}
use help_mi.Database.Laws.{find_first-written, find_first-fits}
use help_mi.World.{World, RefundReply, ProviderCall}
use help_mi.Handler.{run}
use help_mi.PayHere.{is_configured, calls_made}
use help_mi.Refunds.{
  retry, execute, attempt, settle, record_success, find_refund, with_payment, is_claimable,
  is_settled, completed_row, refunded_row, refund_description,
}
use help_mi.Outcomes.Post.{Post}
use help_mi.Outcomes.Success.{Post-present, Post-updated, Post-allowed, Post-chosen, Post-committed}

-- The refund is complete, its escrow refunded, and the provider was called once.
pub record Refunded (w : World) (refund_id : String) (u : Refund) (w' : World) : Type 0 where
  pub complete : u.status ≡ RefundStatus.completed
  pub stored : find_first (λ r. r.id == refund_id) w'.refunds ≡ some u
  pub escrow : Escrow
  pub escrow_stored : find_first (λ e. e.id == u.escrow_id) w'.escrows ≡ some escrow
  pub refunded : escrow.status ≡ EscrowStatus.refunded
  pub called_once : calls_made w'.calls ≡ suc (calls_made w.calls)

calls-one :
    (cs : List ProviderCall) (c : ProviderCall) → calls_made (cs ++ c ∷ []) ≡ suc (calls_made cs)
calls-one [] c = refl
calls-one (x ∷ cs) c = ap suc (calls-one cs c)

positive : (n : ℕ) → 1 ≤ n → nat_eq n 0 ≡ false
positive n h = ground arith

-- A row that is found counts where it fits.
found-counted :
    (p q : Refund → Bool) (rs : List Refund) {r : Refund}
    → find_first p rs ≡ some r
    → q r ≡ true
    → 1 ≤ count_rows q rs
unfolding find_first count_rows
found-counted p q [] here h = ground arith
found-counted p q (x ∷ rs) {r} here h = ground (arith, found-counted p q rs {r = r})

-- A refund that may be claimed is neither complete nor under way.
claimable-settled : (s : RefundStatus) → is_claimable s ≡ true → is_settled s ≡ false
claimable-settled RefundStatus.pending h = refl
claimable-settled RefundStatus.processing h = absurd (true≢false (sym h))
claimable-settled RefundStatus.completed h = absurd (true≢false (sym h))
claimable-settled RefundStatus.failed h = refl

claimable-completed :
    (s : RefundStatus) → is_claimable s ≡ true → not (refund_is s RefundStatus.completed) ≡ true
claimable-completed RefundStatus.pending h = refl
claimable-completed RefundStatus.processing h = absurd (true≢false (sym h))
claimable-completed RefundStatus.completed h = absurd (true≢false (sym h))
claimable-completed RefundStatus.failed h = refl

claimable-processing :
    (s : RefundStatus) → is_claimable s ≡ true → not (refund_is s RefundStatus.processing) ≡ true
claimable-processing RefundStatus.pending h = refl
claimable-processing RefundStatus.processing h = absurd (true≢false (sym h))
claimable-processing RefundStatus.completed h = absurd (true≢false (sym h))
claimable-processing RefundStatus.failed h = refl

module _ (w : World) (r : Refund) (e : Escrow)
    (here : find_first (λ x. x.id == r.id) w.refunds ≡ some r) (free : is_claimable r.status ≡ true)
    (of : find_first (λ x. x.id == r.escrow_id) w.escrows ≡ some e) (ready : is_configured w ≡ true)
    (pays : (w.services.refund_reply
        (calls_made w.calls)
        e.payhere_payment_id
        (refund_description r)).success
      ≡ true) where
  abbrev claim : Refund → Bool
  claim x = x.id == r.id && is_claimable x.status

  same_id : r.id == r.id ≡ true
  same_id = eq_refl r.id

  claimed-some : nat_eq (count_rows claim w.refunds) 0 ≡ false
  claimed-some =
      positive (count_rows claim w.refunds)
        (found-counted (λ x. x.id == r.id) claim w.refunds here (ap₂ ◌&&◌ same_id free))

  module _ (actor : String) where
    abbrev claimed : Refund → Refund
    claimed x = record x {
      status = RefundStatus.processing;
      attempts = x.attempts + 1;
      last_attempted_by = some actor;
    }

    abbrev reply : RefundReply
    reply = w.services.refund_reply (calls_made w.calls) e.payhere_payment_id (refund_description r)

    -- The world once the provider has been called, and once the refund is complete.
    abbrev called : World
    called = record w {
      refunds = update_rows claim claimed w.refunds;
      calls =
          w.calls
          ++ record { payment_id = e.payhere_payment_id; description = refund_description r } ∷ [];
    }

    abbrev completed : World
    completed = record called {
      refunds = update_rows (λ x. x.id == r.id) (completed_row reply w.clock) called.refunds;
    }

    found-claimed : find_first (λ x. x.id == r.id) called.refunds ≡ some (claimed r)
    found-claimed =
        find_first-written (λ x. x.id == r.id) claim claimed w.refunds (λ _. refl) here
          (ap₂ ◌&&◌ same_id free)

    -- The refund and the world at the end.
    abbrev pub final_refund : Refund
    final_refund = completed_row reply w.clock (claimed r)

    abbrev pub final : World
    final = record completed {
      escrows = update_rows (λ x. x.id == r.escrow_id) (refunded_row w.clock) w.escrows;
    }

    -- The refund is still the one of its escrow, if it was.
    pub final-linked :
        find_first (λ x. x.escrow_id == r.escrow_id) w.refunds ≡ some r
        → find_first (λ x. x.escrow_id == r.escrow_id) final.refunds ≡ some final_refund
    final-linked linked =
        find_first-written (λ x. x.escrow_id == r.escrow_id) (λ x. x.id == r.id)
          (completed_row reply w.clock) called.refunds (λ _. refl)
          (find_first-written (λ x. x.escrow_id == r.escrow_id) claim claimed w.refunds (λ _. refl)
            linked (ap₂ ◌&&◌ same_id free))
          same_id

    pub final-escrow :
        find_first (λ x. x.id == r.escrow_id) final.escrows ≡ some (refunded_row w.clock e)
    final-escrow =
        find_first-written (λ x. x.id == r.escrow_id) (λ x. x.id == r.escrow_id)
          (refunded_row w.clock) w.escrows (λ _. refl) of
          (find_first-fits (λ x. x.id == r.escrow_id) w.escrows {r = e} of)

    pub done : Refunded w r.id final_refund final
    done = record {
      complete = refl;
      stored =
          find_first-written (λ x. x.id == r.id) (λ x. x.id == r.id) (completed_row reply w.clock)
            called.refunds (λ _. refl) found-claimed same_id;
      escrow = refunded_row w.clock e;
      escrow_stored = final-escrow;
      refunded = refl;
      called_once = calls-one w.calls _;
    }

    attempt-Post :
        (Q : Refund → World → Type 0)
        → Q final_refund final
        → Post Q (λ _. ⊥) (run (attempt r e.payhere_payment_id actor) w)
    unfolding attempt settle record_success
    attempt-Post Q h =
        Post-chosen _ _ (nat_eq (count_rows claim w.refunds) 0) false _ _ _ claimed-some (
          Post-chosen _ _ _ true _ _ called pays (
            Post-committed _ _ (record_success r reply) called (
              Post-updated _ _ (find_first (λ x. x.id == r.id) called.refunds)
                (completed_row reply w.clock) _ completed (claimed r) found-claimed
                (Post-updated _ _ (find_first (λ x. x.id == r.escrow_id) w.escrows)
                  (refunded_row w.clock) _ _ e of h))))

    found-refund : find_refund r.id w ≡ some (r, e.payhere_payment_id)
    unfolding find_refund
    found-refund =
        ap (λ o. elim o [ none ↦ none | some x ↦ some (with_payment w x) ]) here
        ∙ ap (λ o. some (r, elim o [ none ↦ none | some x ↦ x.payhere_payment_id ])) of

    pub execute-Post :
        (Q : Refund → World → Type 0)
        → Q final_refund final
        → Post Q (λ _. ⊥) (run (execute r.id actor) w)
    unfolding execute
    execute-Post Q h =
        Post-present _ _ (find_refund r.id w) _ _ w (r, e.payhere_payment_id) found-refund
          (Post-chosen _ _ (is_settled r.status) false _ _ w (claimable-settled r.status free)
            (Post-chosen _ _ (is_configured w) true _ _ w ready (attempt-Post Q h)))

  -- An admin's retry of a refund that is PENDING or FAILED, with the endpoint configured and its next
  -- reply a success, returns: the refund is COMPLETED, its escrow REFUNDED, and the provider was
  -- called exactly once.
  pub retry-Refunded :
      (admin_phone : String) → Post (Refunded w r.id) (λ _. ⊥) (run (retry r.id admin_phone) w)
  unfolding retry
  retry-Refunded admin_phone =
      let actor = concat "admin:" admin_phone in
      Post-present _ _ (find_first (λ x. x.id == r.id) w.refunds) _ _ w r here (
        Post-allowed _ _ (not (refund_is r.status RefundStatus.completed)) _ _ w
          (claimable-completed r.status free)
          (Post-allowed _ _ (not (refund_is r.status RefundStatus.processing)) _ _ w
            (claimable-processing r.status free) (execute-Post actor _ (done actor))))
