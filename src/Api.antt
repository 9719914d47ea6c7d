-- ===== src/Api.antt =====
-- The controllers of backend/src behind backend/src/common/guards/jwt-auth.guard.ts, and the reply
-- that backend/src/common/filters/http-exception.filter.ts gives for an exception. Paths and verbs
-- are constructors; of what a route returns only the success is kept.
pub mod Reply
use help_mi.Common.{ℕ, String, Option, none, some, Bool}
use help_mi.Schema.{MessageType}
use help_mi.Handler.{Handler, pure, throw, ◌>>=◌, ◌>>◌, unauthorized}
use help_mi.Tasks.Create.{CreateTaskDto, create_task}
use help_mi.Tasks.Lifecycle.{accept, mark_started, mark_complete, raise_dispute}
use help_mi.Tasks.Release.{confirm}
use help_mi.Tasks.Cancel.{cancel}
use help_mi.Tasks.Reads.{view_task, get_accepted_tasks, get_posted_tasks}
use help_mi.Tasks.Nearby.{NearbyTasksDto, find_nearby}
use help_mi.Users.{UpdateUserDto, find_by_id, update_user, export_me, delete_me, get_public_profile}
use help_mi.Doer.{
  SubmitKycDto, PayoutMethodDto, get_profile, submit_kyc, set_payout_method, get_payouts,
  get_my_tasks,
}
use help_mi.Notifications
use help_mi.Messages
use help_mi.Payments.Checkout.{get_escrow, initiate_payment}
use help_mi.Payments.Webhook.{WebhookBody, handle_webhook}
use help_mi.Ratings.{CreateRatingDto, create_rating, get_ratings}
use help_mi.Uploads.Keys.{UploadPurpose}
use help_mi.Uploads.{presign}
use help_mi.Auth.{issue_otp, verify_otp}
use help_mi.Categories.{find_all_categories}
use help_mi.Guards.{validate}

-- `TasksController`
pub data TasksRoute : Type 0 where
  creates : (dto : CreateTaskDto) → TasksRoute
  near : (dto : NearbyTasksDto) → TasksRoute
  posted accepted : TasksRoute
  shows accepts starts confirms cancels : (id : String) → TasksRoute
  completes disputes : (id text : String) → TasksRoute

abbrev pub tasks_controller : String → TasksRoute → Handler (Unit {0})
tasks_controller user (creates dto) = create_task user dto >> pure tt
tasks_controller user (near dto) = find_nearby dto user >> pure tt
tasks_controller user posted = get_posted_tasks user >> pure tt
tasks_controller user accepted = get_accepted_tasks user >> pure tt
tasks_controller user (shows id) = view_task id (some user) >> pure tt
tasks_controller user (accepts id) = accept id user >> pure tt
tasks_controller user (starts id) = mark_started id user >> pure tt
tasks_controller user (completes id text) = mark_complete id user text >> pure tt
tasks_controller user (confirms id) = confirm id user >> pure tt
tasks_controller user (cancels id) = cancel id user >> pure tt
tasks_controller user (disputes id text) = raise_dispute id user text >> pure tt

-- `UsersController`, less its public route.
pub data UsersRoute : Type 0 where
  me exports_me deletes_me : UsersRoute
  updates_me : (dto : UpdateUserDto) → UsersRoute

abbrev pub users_controller : String → UsersRoute → Handler (Unit {0})
users_controller user me = find_by_id user >> pure tt
users_controller user (updates_me dto) = update_user user dto >> pure tt
users_controller user exports_me = export_me user >> pure tt
users_controller user deletes_me = delete_me user >> pure tt

-- `DoerController`
pub data DoerRoute : Type 0 where
  profile payouts my_tasks : DoerRoute
  submits_kyc : (dto : SubmitKycDto) → DoerRoute
  sets_payout_method : (dto : PayoutMethodDto) → DoerRoute

abbrev pub doer_controller : String → DoerRoute → Handler (Unit {0})
doer_controller user profile = get_profile user >> pure tt
doer_controller user (submits_kyc dto) = submit_kyc user dto >> pure tt
doer_controller user (sets_payout_method dto) = set_payout_method user dto >> pure tt
doer_controller user payouts = get_payouts user >> pure tt
doer_controller user my_tasks = get_my_tasks user >> pure tt

-- `NotificationsController`
pub data NotificationsRoute : Type 0 where
  lists counts_unread reads_all : NotificationsRoute
  reads_one : (id : String) → NotificationsRoute

abbrev pub notifications_controller : String → NotificationsRoute → Handler (Unit {0})
notifications_controller user lists = Notifications.get_for_user user >> pure tt
notifications_controller user counts_unread = Notifications.get_unread_count user >> pure tt
notifications_controller user reads_all = Notifications.mark_all_read user >> pure tt
notifications_controller user (reads_one id) = Notifications.mark_read id user >> pure tt

-- `MessagesController`
pub data MessagesRoute : Type 0 where
  unread : MessagesRoute
  thread : (task_id : String) → MessagesRoute
  sends : (task_id content : String) (type : Option MessageType) → MessagesRoute

abbrev pub messages_controller : String → MessagesRoute → Handler (Unit {0})
messages_controller user unread = Messages.get_unread_count user >> pure tt
messages_controller user (thread task_id) = Messages.get_messages task_id user >> pure tt
messages_controller user (sends task_id content type) =
    Messages.send_message task_id user content type >> pure tt

-- `PaymentsController`, less its public route.
pub data PaymentsRoute : Type 0 where
  escrow initiates : (task_id : String) → PaymentsRoute

abbrev pub payments_controller : String → PaymentsRoute → Handler (Unit {0})
payments_controller user (escrow task_id) = get_escrow task_id user >> pure tt
payments_controller user (initiates task_id) = initiate_payment task_id user >> pure tt

-- `RatingsController`
pub data RatingsRoute : Type 0 where
  rates : (dto : CreateRatingDto) → RatingsRoute
  shows_ratings : (user_id : String) → RatingsRoute

abbrev pub ratings_controller : String → RatingsRoute → Handler (Unit {0})
ratings_controller user (rates dto) = create_rating user dto >> pure tt
ratings_controller user (shows_ratings user_id) = get_ratings user_id >> pure tt

-- `UploadsController`
abbrev pub uploads_controller : String → UploadPurpose → String → Handler (Unit {0})
uploads_controller user purpose content_type = presign user purpose content_type >> pure tt

-- The routes of a caller, by controller.
pub data UserRoute : Type 0 where
  tasks : (route : TasksRoute) → UserRoute
  users : (route : UsersRoute) → UserRoute
  doer : (route : DoerRoute) → UserRoute
  notifications : (route : NotificationsRoute) → UserRoute
  messages : (route : MessagesRoute) → UserRoute
  payments : (route : PaymentsRoute) → UserRoute
  ratings : (route : RatingsRoute) → UserRoute
  uploads : (purpose : UploadPurpose) (content_type : String) → UserRoute

abbrev pub user_route : String → UserRoute → Handler (Unit {0})
user_route user (tasks route) = tasks_controller user route
user_route user (users route) = users_controller user route
user_route user (doer route) = doer_controller user route
user_route user (notifications route) = notifications_controller user route
user_route user (messages route) = messages_controller user route
user_route user (payments route) = payments_controller user route
user_route user (ratings route) = ratings_controller user route
user_route user (uploads purpose content_type) = uploads_controller user purpose content_type

-- `AuthController`
pub data AuthRoute : Type 0 where
  requests_otp resends_otp : (phone : String) → AuthRoute
  verifies_otp : (phone code : String) → AuthRoute

abbrev pub auth_controller : AuthRoute → Handler (Unit {0})
auth_controller (requests_otp phone) = issue_otp phone
auth_controller (resends_otp phone) = issue_otp phone
auth_controller (verifies_otp phone code) = verify_otp phone code >> pure tt

-- `PaymentsController.handleWebhook`
abbrev pub webhook_route : WebhookBody → Handler (Unit {0})
webhook_route body = handle_webhook body

-- `UsersController.getProfile`
abbrev pub profile_route : String → Handler (Unit {0})
profile_route id = get_public_profile id >> pure tt

-- `CategoriesController`
abbrev pub categories_controller : Handler (Unit {0})
categories_controller = find_all_categories >> pure tt

-- The routes marked `@Public()`.
pub data PublicRoute : Type 0 where
  auth : (route : AuthRoute) → PublicRoute
  notifies : (body : WebhookBody) → PublicRoute
  shows_profile : (id : String) → PublicRoute
  categories : PublicRoute

abbrev pub public_route : PublicRoute → Handler (Unit {0})
public_route (auth route) = auth_controller route
public_route (notifies body) = webhook_route body
public_route (shows_profile id) = profile_route id
public_route categories = categories_controller

pub data ApiRoute : Type 0 where
  open_to_all : (route : PublicRoute) → ApiRoute
  of_caller : (route : UserRoute) → ApiRoute

-- What passport makes of the bearer token, which is given by the id of its user: none where there
-- is no token, or one that is forged or too old.
abbrev pub authenticate : Option String → Handler (String × String)
authenticate none = throw (unauthorized "Unauthorized")
authenticate (some user_id) = validate user_id

-- `JwtAuthGuard` before each route.
unfoldable pub api_route : Option String → ApiRoute → Handler (Unit {0})
api_route token (open_to_all route) = public_route route
api_route token (of_caller route) = do (id, phone) ← authenticate token; user_route id route
