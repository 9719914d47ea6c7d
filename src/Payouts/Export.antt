-- ===== src/Payouts/Export.antt =====
-- `exportCsv` of payout.service.ts. The texts of an amount and of a time are those of
-- Decimal and of Date.
use help_mi.Common.{ℕ, String, Option, none, some, List, [], ◌∷◌, map, concat, or_default}
use help_mi.Schema.{Payout, PayoutMethod, PayoutStatus}
use help_mi.World.{World}
use help_mi.Handler.{Handler, ◌>>=◌}
use help_mi.Handler.Calls.{reads}
use help_mi.Payouts.{admin_list}

abbrev pub method_text : PayoutMethod → String
method_text PayoutMethod.bank = "BANK"
method_text PayoutMethod.mobile_wallet = "MOBILE_WALLET"

abbrev pub status_text : PayoutStatus → String
status_text PayoutStatus.pending = "PENDING"
status_text PayoutStatus.processing = "PROCESSING"
status_text PayoutStatus.paid = "PAID"
status_text PayoutStatus.failed = "FAILED"

-- `join`
unfoldable pub join : String → List String → String
join separator [] = ""
join separator (s ∷ []) = s
join separator (s ∷ t ∷ ts) = concat s (concat separator (join separator (t ∷ ts)))

abbrev pub csv_header : String
csv_header = "id,escrowId,taskId,doerId,amount,method,status,providerRef,createdAt,paidAt"

abbrev pub paid_text : World → Option ℕ → String
paid_text w none = ""
paid_text w (some at) = w.services.iso_text at

-- The fields of a line; the snapshot of a destination has no wallet.
abbrev pub csv_fields : World → Payout → List String
csv_fields w p =
    p.id
    ∷ p.escrow_id
    ∷ p.task_id
    ∷ p.doer_id
    ∷ w.services.money_text p.amount
    ∷ method_text p.method
    ∷ status_text p.status
    ∷ or_default p.provider_ref ""
    ∷ w.services.iso_text p.created_at
    ∷ paid_text w p.paid_at
    ∷ or_default p.destination_snapshot.bank_account_number ""
    ∷ []

abbrev pub csv_text : World → List Payout → String
csv_text w rows =
    concat csv_header (concat ",account\n" (join "\n" (map (λ p. join "," (csv_fields w p)) rows)))

-- `exportCsv`
unfoldable pub export_csv : Option PayoutStatus → Handler String
export_csv status = do rows ← admin_list status; reads (λ w. csv_text w rows)
