-- ===== src/Guards.antt =====
-- Who is let in: `validate` of backend/src/auth/strategies/jwt.strategy.ts, which every request with
-- a token passes, and backend/src/common/guards/admin.guard.ts; and the routes of
-- backend/src/admin/admin.controller.ts behind both. A token is given by the id of its user: its
-- signature and its age are checked by the framework before.
use help_mi.Common.{
  ℕ, String, Option, Bool, false, not, ◌&&◌, ◌||◌, ◌==◌, List, [], ◌∷◌, map, trim, split,
  or_default,
}
use help_mi.Schema.{User, DoerTier, DisputeStatus, PayoutStatus, RefundStatus, TaskStatus}
use help_mi.World.{World, users}
use help_mi.Handler.{Handler, pure, ◌>>=◌, ◌>>◌, guard, or_throw, unauthorized, forbidden}
use help_mi.Handler.Calls.{reads, find}
use help_mi.Refunds.{list_refunds}
use help_mi.Tasks.Lifecycle.{is_none}
use help_mi.Admin.{
  approve_kyc, reject_kyc, ban_user, unban_user, resolve_dispute, initiate_escrow_refund,
  retry_refund, force_cancel_task, mark_payout_paid,
}
use help_mi.Admin.Reads.{
  get_pending_kyc, get_kyc_documents, get_users, get_disputes, list_tasks, get_stats, list_payouts,
  export_payouts_csv,
}

abbrev pub may_call : User → Bool
may_call u = u.is_active && (not u.is_banned && is_none u.deleted_at)

-- `validate`: the caller's id and phone.
unfoldable pub validate : String → Handler (String × String)
validate user_id = do
  row ← find users (λ u. u.id == user_id)
  user ← or_throw row (unauthorized "Unauthorized")
  guard (may_call user) (unauthorized "Unauthorized")
  pure (user.id, user.phone)

-- `includes`
unfoldable pub includes : List String → String → Bool
includes [] s = false
includes (t ∷ ts) s = let rest = includes ts s in t == s || rest

abbrev pub is_admin : World → String → Bool
is_admin w phone =
    includes (map trim (split b',' (or_default (w.services.config "ADMIN_PHONES") ""))) phone

-- `canActivate`
unfoldable pub can_activate : String → Handler (Unit {0})
can_activate phone = do
  allowed ← reads (λ w. is_admin w phone)
  guard allowed (forbidden "Admin access required")

-- The routes, with their parameters.
pub data AdminRequest : Type 0 where
  stats pending_kyc : AdminRequest
  kyc_documents bans unbans refunds_task retries force_cancels : (id : String) → AdminRequest
  approves_kyc : (id : String) (tier : Option DoerTier) → AdminRequest
  rejects_kyc : (id reason : String) → AdminRequest
  lists_users : (page limit : Option ℕ) → AdminRequest
  lists_disputes : (status : Option DisputeStatus) → AdminRequest
  resolves : (id reason : String) (refund_poster : Bool) → AdminRequest
  lists_payouts exports_payouts : (status : Option PayoutStatus) → AdminRequest
  marks_paid : (id : String) (provider_ref : Option String) → AdminRequest
  lists_refunds : (status : Option RefundStatus) → AdminRequest
  lists_tasks : (status : Option TaskStatus) (page limit : Option ℕ) → AdminRequest

-- The controller, its replies left out.
abbrev pub administer : String → AdminRequest → Handler (Unit {0})
administer phone stats = get_stats >> pure tt
administer phone pending_kyc = get_pending_kyc >> pure tt
administer phone (kyc_documents id) = get_kyc_documents id >> pure tt
administer phone (approves_kyc id tier) = approve_kyc id phone tier >> pure tt
administer phone (rejects_kyc id reason) = reject_kyc id phone reason >> pure tt
administer phone (lists_users page limit) =
    get_users (or_default page 1) (or_default limit 50) >> pure tt
administer phone (bans id) = ban_user id >> pure tt
administer phone (unbans id) = unban_user id >> pure tt
administer phone (lists_disputes status) = get_disputes status >> pure tt
administer phone (resolves id reason refund_poster) = resolve_dispute id phone reason refund_poster
administer phone (lists_payouts status) = list_payouts status >> pure tt
administer phone (exports_payouts status) = export_payouts_csv status >> pure tt
administer phone (marks_paid id provider_ref) = mark_payout_paid id provider_ref >> pure tt
administer phone (lists_refunds status) = list_refunds status >> pure tt
administer phone (refunds_task id) = initiate_escrow_refund id phone >> pure tt
administer phone (retries id) = retry_refund id phone >> pure tt
administer phone (lists_tasks status page limit) =
    list_tasks status (or_default page 1) (or_default limit 50) >> pure tt
administer phone (force_cancels id) = force_cancel_task id phone >> pure tt

-- A request with the token of a user: both guards, then the route.
unfoldable pub admin_route : String → AdminRequest → Handler (Unit {0})
admin_route user_id request = do
  (id, phone) ← validate user_id
  can_activate phone
  administer phone request
