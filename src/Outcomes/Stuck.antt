-- ===== src/Outcomes/Stuck.antt =====
-- What refund.service.ts does with a refund that is PROCESSING.
use help_mi.Common.{◌≡◌, refl, sym, ap, ◌∙◌, subst, String, some, true, not, ◌==◌}
use mathlib.Core.Bool.{true≢false}
use help_mi.Schema.{Refund, Escrow, RefundStatus, refund_is}
use help_mi.Database.{find_first}
use help_mi.World.{World}
use help_mi.Handler.{run}
use help_mi.Refunds.{
  InitiateRefundInput, initiate_for_escrow, resume_or_start, resume, retry, is_settled,
}
use help_mi.Outcomes.Post.{Post, Post-guard}
use help_mi.Outcomes.Success.{Post-present, Post-allowed, Post-chosen}

-- A new request for the refund of an escrow whose refund is COMPLETED or under way.
pub settled-Same :
    (w : World) (r : Refund) (e : Escrow) (input : InitiateRefundInput)
    → is_settled r.status ≡ true
    → find_first (λ x. x.id == input.escrow_id) w.escrows ≡ some e
    → find_first (λ x. x.escrow_id == e.id) w.refunds ≡ some r
    → Post (λ u w'. (u ≡ r) × (w' ≡ w)) (λ _. ⊥) (run (initiate_for_escrow input) w)
unfolding initiate_for_escrow resume
settled-Same w r e input settled found claimed =
    Post-present _ _ (find_first (λ x. x.id == input.escrow_id) w.escrows) _ _ w e found (
      subst (λ o. Post (λ u w'. (u ≡ r) × (w' ≡ w)) (λ _. ⊥) (run (resume_or_start e input o) w))
        (sym claimed) (Post-chosen _ _ (is_settled r.status) true _ _ w settled (refl, refl)))

-- A refund that is PROCESSING stays so: an admin's retry refuses, a new request for the refund of
-- its escrow, as a cancel or the reconciliation makes one, returns it as it is, and neither changes
-- anything.
pub processing-Same :
    (w : World) (r : Refund) (e : Escrow) (input : InitiateRefundInput) (admin_phone : String)
    → r.status ≡ RefundStatus.processing
    → find_first (λ x. x.id == r.id) w.refunds ≡ some r
    → find_first (λ x. x.id == input.escrow_id) w.escrows ≡ some e
    → find_first (λ x. x.escrow_id == e.id) w.refunds ≡ some r
    → Post (λ _ _. ⊥) (λ w'. w' ≡ w) (run (retry r.id admin_phone) w)
      × Post (λ u w'. (u ≡ r) × (w' ≡ w)) (λ _. ⊥) (run (initiate_for_escrow input) w)
unfolding retry
processing-Same w r e input admin_phone busy here found claimed = (
  Post-present _ _ (find_first (λ x. x.id == r.id) w.refunds) _ _ w r here (
      Post-allowed _ _ (not (refund_is r.status RefundStatus.completed)) _ _ w
        (ap (λ s. not (refund_is s RefundStatus.completed)) busy)
        (Post-guard _ _ (not (refund_is r.status RefundStatus.processing)) _ _ w
          (λ free.
            absurd
              (true≢false (sym free ∙ ap (λ s. not (refund_is s RefundStatus.processing)) busy)))
          (λ _. refl))),
  settled-Same w r e input (ap is_settled busy) found claimed,
)
