-- ===== src/PayHere.antt =====
-- backend/src/payments/providers/payhere.client.ts, less the OAuth token and the transport: one
-- call of the refund endpoint is a step that is recorded, with the reply of the services.
use help_mi.Common.{ℕ, suc, String, Option, List, [], ◌∷◌, ◌++◌, Bool, ◌&&◌, truthy}
use help_mi.World.{World, RefundReply, ProviderCall}
use help_mi.Handler.{Handler, pure, await}

-- `isConfigured`
abbrev pub is_configured : World → Bool
is_configured w =
    truthy (w.services.config "PAYHERE_APP_ID") && truthy (w.services.config "PAYHERE_APP_SECRET")

abbrev pub calls_made : List ProviderCall → ℕ
calls_made [] = 0
calls_made (c ∷ cs) = suc (calls_made cs)

-- `refundPayment`
abbrev pub refund_payment : Option String → String → Handler RefundReply
refund_payment payment_id description =
    await
      (λ w. record w {
        calls = w.calls ++ record { payment_id = payment_id; description = description } ∷ [];
      })
      (λ w. pure (w.services.refund_reply (calls_made w.calls) payment_id description))
