-- ===== src/Outcomes/Initiating.antt =====
-- `initiateForEscrow` of refund.service.ts where nothing stands in its way.
use help_mi.Common.{
  ℕ, suc, ◌≡◌, refl, sym, ap, ◌∙◌, subst, none, some, Bool, true, false, ◌&&◌, ◌||◌, ◌==◌, arith,
  truthy, eq-path, eq_refl, if◌then◌else◌, &&-both,
}
use mathlib.Core.Option
use help_mi.Schema.{Refund, RefundStatus, Escrow, EscrowStatus, escrow_is}
use help_mi.Database.{find_first, update_rows, add_row, has_row}
use help_mi.Database.Laws.{find_first-update_rows, find_first-added, find_first-fits, none-narrower}
use help_mi.World.{World}
use help_mi.Handler.{run, pure, throw, catch, ◌>>=◌, unique_violation}
use help_mi.PayHere.{is_configured, calls_made}
use help_mi.Refunds.{
  InitiateRefundInput, initiate_for_escrow, refunded_row, resume_or_start, start, insert_refund,
  create_refund, new_refund, execute_created, is_refundable, refund_pending_row, refund_description,
}
use help_mi.Outcomes.Post.{Post}
use help_mi.Outcomes.Stuck.{settled-Same}
use help_mi.Outcomes.Success.{Post-present, Post-allowed}
use help_mi.Outcomes.Retrying.{
  Refunded, execute-Post, done, final, final_refund, final-linked, final-escrow,
}

same_payment :
    (b : Bool) (now : ℕ) (e : Escrow)
    → (if b then refund_pending_row now e else e).payhere_payment_id ≡ e.payhere_payment_id
same_payment true now e = refl
same_payment false now e = refl

pub or-left : (a b : Bool) → a ≡ true → a || b ≡ true
or-left a b h = ground arith

pub or-right : (a b : Bool) → b ≡ true → a || b ≡ true
or-right a b h = ground arith

same_escrow :
    (b : Bool) (now : ℕ) (e : Escrow)
    → e.id ≡ (refunded_row now (if b then refund_pending_row now e else e)).id
same_escrow true now e = refl
same_escrow false now e = refl

module _ (w : World) (input : InitiateRefundInput) (e : Escrow) where
  abbrev new : Refund
  new = new_refund e input (w.services.uuid w.next_id)

  abbrev clashes : Refund → Bool
  clashes r = r.id == new.id || r.escrow_id == new.escrow_id

  abbrev takes : Escrow → Bool
  takes x =
      x.id == e.id
      && (escrow_is x.status EscrowStatus.held || escrow_is x.status EscrowStatus.disputed)

  abbrev taken : World
  taken = record w { escrows = update_rows takes (refund_pending_row w.clock) w.escrows }

  abbrev recorded : World
  recorded = record taken { refunds = add_row new w.refunds; next_id = suc w.next_id }

  -- Nothing stands in the way of a refund of the escrow's money.
  pub record Refundable : Type 0 where
    pub found : find_first (λ x. x.id == input.escrow_id) w.escrows ≡ some e
    pub captured : is_refundable e.status && truthy e.payhere_payment_id ≡ true
    pub unclaimed : has_row clashes w.refunds ≡ false
    pub ready : is_configured w ≡ true
    pub pays :
        (w.services.refund_reply
          (calls_made w.calls)
          e.payhere_payment_id
          (refund_description new)).success
        ≡ true

  module _ (can : Refundable) where
    no_refund : find_first (λ r. r.escrow_id == e.id) w.refunds ≡ none
    no_refund =
        none-narrower clashes (λ r. r.escrow_id == e.id) w.refunds
          (λ r h. or-right (r.id == new.id) _ h) can.unclaimed

    stored : find_first (λ r. r.id == new.id) recorded.refunds ≡ some new
    stored =
        find_first-added (λ r. r.id == new.id) new w.refunds
          (none-narrower clashes (λ r. r.id == new.id) w.refunds
            (λ r h. or-left _ (r.escrow_id == new.escrow_id) h) can.unclaimed)
          (eq_refl new.id)

    escrow-after :
        find_first (λ x. x.id == e.id) recorded.escrows
        ≡ some (if takes e then refund_pending_row w.clock e else e)
    escrow-after =
        find_first-update_rows (λ x. x.id == e.id) takes (refund_pending_row w.clock) w.escrows
          (λ _. refl)
        ∙ ap (Option.map (λ x. if takes x then refund_pending_row w.clock x else x)) (
            ap (λ i. find_first (λ x. x.id == i) w.escrows)
              (eq-path e.id input.escrow_id
                (find_first-fits (λ x. x.id == input.escrow_id) w.escrows {r = e} can.found))
            ∙ can.found)

    will_pay :
        (recorded.services.refund_reply
          (calls_made recorded.calls)
          (if takes e then refund_pending_row w.clock e else e).payhere_payment_id
          (refund_description new)).success
        ≡ true
    will_pay =
        ap (λ p. (w.services.refund_reply (calls_made w.calls) p (refund_description new)).success)
          (same_payment (takes e) w.clock e)
        ∙ can.pays

    module _ (Q : Refund → World → Type 0)
        (h : Q
          (final_refund recorded new
            (if takes e then refund_pending_row w.clock e else e)
            stored
            refl
            escrow-after
            can.ready
            will_pay
            input.initiated_by)
          (final recorded new
            (if takes e then refund_pending_row w.clock e else e)
            stored
            refl
            escrow-after
            can.ready
            will_pay
            input.initiated_by)) where
      started : Post Q (λ _. ⊥) (run (start e input) w)
      unfolding start insert_refund create_refund
      started =
          let (open_, paid) = &&-both (is_refundable e.status) _ can.captured in
          Post-allowed _ _ (is_refundable e.status) _ _ w open_ (
            Post-allowed _ _ (truthy e.payhere_payment_id) _ _ w paid (
              subst
                (λ b.
                  Post Q (λ _. ⊥)
                    (run
                      (catch
                          ((if b then throw unique_violation else pure new) >>= λ r. pure (some r))
                          (λ _. pure none)
                        >>= execute_created e input.initiated_by)
                      (if b then taken else recorded)))
                (sym can.unclaimed)
                (execute-Post recorded new _ stored refl escrow-after can.ready will_pay
                  input.initiated_by Q h)))

      initiate-Post : Post Q (λ _. ⊥) (run (initiate_for_escrow input) w)
      unfolding initiate_for_escrow
      initiate-Post =
          Post-present _ _ (find_first (λ x. x.id == input.escrow_id) w.escrows) _ _ w e can.found (
            subst (λ o. Post Q (λ _. ⊥) (run (resume_or_start e input o) w)) (sym no_refund)
              started)

    -- A refund of captured money that no other refund claims, with the endpoint configured and its
    -- next reply a success, returns: the refund is COMPLETED, the escrow REFUNDED, and the provider
    -- was called exactly once.
    pub initiate_for_escrow-Refunded :
        Post (Refunded w new.id) (λ _. ⊥) (run (initiate_for_escrow input) w)
    initiate_for_escrow-Refunded =
        let d =
          done recorded new _ stored refl escrow-after can.ready will_pay input.initiated_by in
        initiate-Post _ (record {
          complete = d.complete;
          stored = d.stored;
          escrow = d.escrow;
          escrow_stored = d.escrow_stored;
          refunded = d.refunded;
          called_once = d.called_once;
        })

    linked : find_first (λ x. x.escrow_id == e.id) recorded.refunds ≡ some new
    linked = find_first-added (λ x. x.escrow_id == e.id) new w.refunds no_refund (eq_refl e.id)

    -- A refund of captured money that no other refund claims, with the endpoint configured and its
    -- next reply a success, is COMPLETED, and a later request for the refund of the same escrow, for
    -- whatever reason and by whomever, returns that refund and changes nothing: it inserts no
    -- second row and does not call the provider again.
    pub initiate_for_escrow-again :
        (again : InitiateRefundInput)
        → again.escrow_id ≡ input.escrow_id
        → Post
            (λ u v.
              (u.status ≡ RefundStatus.completed)
              × Post (λ u' v'. (u' ≡ u) × (v' ≡ v)) (λ _. ⊥) (run (initiate_for_escrow again) v))
            (λ _. ⊥)
            (run (initiate_for_escrow input) w)
    initiate_for_escrow-again again same =
        let now_held = if takes e then refund_pending_row w.clock e else e in
        let actor = input.initiated_by in
        let u =
          final_refund recorded new now_held stored refl escrow-after can.ready will_pay actor in
        let v = final recorded new now_held stored refl escrow-after can.ready will_pay actor in
        let id =
          same
          ∙ sym (
              eq-path e.id input.escrow_id
                (find_first-fits (λ x. x.id == input.escrow_id) w.escrows {r = e} can.found)) in
        initiate-Post _ (
          refl,
          settled-Same v u (refunded_row w.clock now_held) again refl
              (ap (λ i. find_first (λ x. x.id == i) v.escrows) id
                ∙ final-escrow recorded new now_held stored refl escrow-after can.ready will_pay
                    actor)
              (ap (λ i. find_first (λ x. x.escrow_id == i) v.refunds)
                  (sym (same_escrow (takes e) w.clock e))
                ∙ final-linked recorded new now_held stored refl escrow-after can.ready will_pay
                    actor linked),
        )
