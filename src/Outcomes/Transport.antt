-- ===== src/Outcomes/Transport.antt =====
-- What the transports send, and what an environment that was accepted makes of them.
use mathlib.Core.Option.{some-injective, none-ne-some}
use mathlib.Core.Bool.{true≢false}
use help_mi.Common.{
  ◌≤◌, ◌<◌, nat_eq, ◌+◌, ◌*◌, ◌⊎◌, inl, inr, ◌≡◌, refl, sym, ap, ◌∙◌, subst, ℕ, String, Option,
  none, some, Bool, true, false, not, ◌==◌, ◌&&◌, or_default, arith, path-eq, to_lower_case,
  if◌then◌else◌,
}
use help_mi.Config.{Env, str, or_text, is_unsafe_mode, validate_env}
use help_mi.Outcomes.Environment.{validate_env-Safe}
use help_mi.Transports.Token.{
  CachedToken, TokenReply, TokenCall, get_access_token, is_fresh, refreshed, token_of, seconds_of,
  api_host,
}

-- The time of a token's life in seconds: what the reply says, or ten minutes.
abbrev pub LivesFor : Option ℕ → ℕ → Type 0
LivesFor said seconds =
    ((said ≡ some seconds) × (1 ≤ seconds)) ⊎ ((seconds ≡ 600) × ((n : ℕ) → said ≡ some n → n ≡ 0))

-- The token that a reply gives: the reply is a success and carries it, and it ends when it says.
pub record Gives (r : TokenReply) (t : CachedToken) : Type 0 where
  pub good : r.is_ok ≡ true
  pub carried : r.access_token ≡ some t.value
  pub not_empty : t.value ≡ "" → ⊥
  pub seconds : ℕ
  pub lives : LivesFor r.expires_in seconds
  pub ends : t.expires_at ≡ r.received_at + seconds * 1000

-- What a call has come to, and what a later one then does.
pub record Lasts (reply : ℕ → TokenReply) (now later : ℕ) (before : Option CachedToken)
    (c : TokenCall) : Type 0 where
  pub kept :
      (v : String)
      → c.result ≡ some v
      → (t : CachedToken) × ((c.cached ≡ some t)
          × ((t.value ≡ v)
              × (later + 60000 < t.expires_at
                  → get_access_token reply later (some t)
                    ≡ record { result = some v; cached = some t; fetched = false })))
  pub asked :
      c.fetched ≡ true
      → (t : CachedToken) → c.cached ≡ some t
      → (c.result ≡ none → ⊥)
      → Gives (reply now) t
  pub spared :
      c.fetched ≡ false
      → (t : CachedToken) × ((before ≡ some t)
          × ((c.cached ≡ some t) × (now + 60000 < t.expires_at)))
  pub refused : c.result ≡ none → (c.cached ≡ before) × (c.fetched ≡ true)

fresh : (now : ℕ) (t : CachedToken) → now + 60000 < t.expires_at → is_fresh now t ≡ true
fresh now t h = ground arith

long : (now : ℕ) (t : CachedToken) → is_fresh now t ≡ true → now + 60000 < t.expires_at
long now t h = ground arith

lives_some : (n : ℕ) (b : Bool) → nat_eq n 0 ≡ b → LivesFor (some n) (if b then 600 else n)
lives_some n true e = inr (refl, λ m h. sym (some-injective _ _ h) ∙ ground arith)
lives_some n false e = inl (refl, ground arith)

lives : (said : Option ℕ) → LivesFor said (seconds_of said)
lives none = inr (refl, λ n h. absurd (none-ne-some _ h))
lives (some n) = lives_some n (nat_eq n 0) refl

given_text :
    (r : TokenReply) (s : String) (b : Bool) (t : CachedToken)
    → r.access_token ≡ some s
    → r.is_ok ≡ true
    → (s == "") ≡ b
    → (if not (if b then false else true)
        then none
        else some
            (record { value = s; expires_at = r.received_at + seconds_of r.expires_in * 1000 }))
      ≡ some t
    → Gives r t
given_text r s true t e k empty h = absurd (none-ne-some _ h)
given_text r s false t e k empty h = subst (Gives r) (some-injective _ _ h) (record {
  good = k;
  carried = e;
  not_empty = λ same. absurd (true≢false (sym (path-eq s "" same) ∙ empty));
  seconds = seconds_of r.expires_in;
  lives = lives r.expires_in;
  ends = refl;
})

given_token :
    (r : TokenReply) (o : Option String) (b : Bool) (t : CachedToken)
    → r.access_token ≡ o
    → r.is_ok ≡ b
    → token_of (record r { access_token = o; is_ok = b }) ≡ some t
    → Gives r t
given_token r o false t e k h = absurd (none-ne-some _ h)
given_token r none true t e k h = absurd (none-ne-some _ h)
given_token r (some s) true t e k h = given_text r s (s == "") t e k refl h

token_of-Gives : (r : TokenReply) (t : CachedToken) → token_of r ≡ some t → Gives r t
token_of-Gives r t h = given_token r r.access_token r.is_ok t refl refl h

module _ (reply : ℕ → TokenReply) (later : ℕ) where
  given_again :
      (t : CachedToken) (v : String)
      → t.value ≡ v
      → later + 60000 < t.expires_at
      → get_access_token reply later (some t)
        ≡ record { result = some v; cached = some t; fetched = false }
  unfolding get_access_token
  given_again t v same left =
      ap
        (λ b.
          if b
          then record { result = some t.value; cached = some t; fetched = false }
          else refreshed (some t) (token_of (reply later)))
        (fresh later t left)
      ∙ ap (λ v. record { result = some v; cached = some t; fetched = false }) same

  of_refreshed :
      (now : ℕ) (before o : Option CachedToken)
      → token_of (reply now) ≡ o
      → Lasts reply now later before (refreshed before o)
  of_refreshed now before none e = record {
    kept = λ v h. absurd (none-ne-some _ h);
    asked = λ _ t h n. absurd (n refl);
    spared = λ h. absurd (true≢false h);
    refused = λ _. (refl, refl);
  }
  of_refreshed now before (some t) e = record {
    kept = λ v h. (t, (refl, (some-injective _ _ h, given_again t v (some-injective _ _ h))));
    asked = λ _ u h _. token_of-Gives (reply now) u (e ∙ h);
    spared = λ h. absurd (true≢false h);
    refused = λ h. absurd (none-ne-some _ (sym h));
  }

  of_kept :
      (now : ℕ) (t : CachedToken) (b : Bool)
      → is_fresh now t ≡ b
      → Lasts reply now later (some t) (
          if b
          then record { result = some t.value; cached = some t; fetched = false }
          else refreshed (some t) (token_of (reply now)))
  of_kept now t true e = record {
    kept = λ v h. (t, (refl, (some-injective _ _ h, given_again t v (some-injective _ _ h))));
    asked = λ h. absurd (true≢false (sym h));
    spared = λ _. (t, (refl, (refl, long now t e)));
    refused = λ h. absurd (none-ne-some _ (sym h));
  }
  of_kept now t false e = of_refreshed now (some t) (token_of (reply now)) refl

-- A call that asks the endpoint returns a token only if the reply is a success that carries one,
-- not empty, and keeps it with its end: the seconds of the reply after its arrival, or ten minutes
-- where it names none. A call that does not ask returns the kept token, of which more than a minute
-- is left. After a token was returned, a later call with more than a minute of it left returns it
-- again without asking; a call that throws has asked and leaves what was kept.
pub get_access_token-Lasts :
    (reply : ℕ → TokenReply) (now later : ℕ) (cached : Option CachedToken)
    → Lasts reply now later cached (get_access_token reply now cached)
unfolding get_access_token
get_access_token-Lasts reply now later none = of_refreshed reply later now none _ refl
get_access_token-Lasts reply now later (some t) = of_kept reply later now t (is_fresh now t) refl

of_mode :
    (o : Option String) (s : String)
    → s ≡ or_default o ""
    → (to_lower_case (or_text s "sandbox") == "live") ≡ true
    → (to_lower_case (or_default o "sandbox") == "live") ≡ true
unfolding to_lower_case
of_mode none s plain live =
    subst (λ s. (to_lower_case (or_text s "sandbox") == "live") ≡ true) plain live
of_mode (some x) s plain live =
    of_text (x == "")
      (subst (λ s. (to_lower_case (or_text s "sandbox") == "live") ≡ true) plain live)
  where
    of_text :
        (b : Bool)
        → (to_lower_case (if b then "sandbox" else x) == "live") ≡ true
        → (to_lower_case x == "live") ≡ true
    of_text true h = absurd (true≢false (sym h))
    of_text false h = h

allowed_only :
    (live sandbox : Bool) → (not live && not sandbox) ≡ false → sandbox ≡ false → live ≡ true
allowed_only live sandbox h k = ground arith

-- In production, with the sandbox not allowed and no blanks around the mode, an environment that
-- was accepted has refunds go to the live host.
pub validate_env-api_host :
    (env env' : Env)
    → (str env "NODE_ENV" == "production") ≡ true
    → validate_env env ≡ some env'
    → (str env "PAYHERE_ALLOW_SANDBOX_IN_PROD" == "true") ≡ false
    → str env "PAYHERE_MODE" ≡ or_default (env "PAYHERE_MODE") ""
    → api_host env ≡ "https://www.payhere.lk"
unfolding api_host is_unsafe_mode
validate_env-api_host env env' production accepted strict plain =
    ap (λ b. if b then "https://www.payhere.lk" else "https://sandbox.payhere.lk")
      (of_mode (env "PAYHERE_MODE") (str env "PAYHERE_MODE") plain (
        allowed_only _ (str env "PAYHERE_ALLOW_SANDBOX_IN_PROD" == "true")
          (validate_env-Safe env env' production accepted).mode strict))
