-- ===== src/Outbox/Access.antt =====
-- The authentication of a client: `verify_client_authentication`, `verify_access_token` and
-- `extract_username_from_headers`.
use oxifed.Base.{
  ℕ, zero, suc, String, Bool, true, false, Option, none, some, Result, ok, err, starts_with, ◌⧺◌,
  and_then, if◌then◌else◌,
}
use oxifed.Vocab.{lookup}
use oxifed.Inbox.Documents.{Headers}

-- the collection `access_tokens`, in which only unexpired tokens are found
pub record AccessTokens : Type 0 where
  -- is there a document with the token and the name
  pub find_one : (token username : String) → Result String Bool
  -- the name in the document with the token, if there is one
  pub username_of : (token : String) → Option String

-- `&text[n..]`
unfoldable pub skip_text : ℕ → String → String
skip_text zero s = s
skip_text (suc n) String.[] = ""
skip_text (suc n) (String.◌∷◌ c s) = skip_text n s

-- the value of the header, if it is text
abbrev pub authorization : Headers → Option String
authorization headers = and_then (lookup "authorization" headers) (λ v. v)

-- the token after the scheme
unfoldable pub bearer_token : Headers → Option String
unfolding lookup starts_with skip_text
bearer_token headers = elim (authorization headers) [
  | none ↦ none
  | some value ↦ if starts_with value "Bearer " then some (skip_text 7 value) else none
]

module _ (tokens : AccessTokens) where
  unfoldable pub verify_access_token : (token username : String) → Result String Bool
  unfolding starts_with
  verify_access_token token username =
      if starts_with token ("user:" ⧺ username ⧺ ":token:")
      then ok true
      else elim (tokens.find_one token username) [
        | ok found ↦ ok found
        | err e ↦ err ("Database error: " ⧺ e)
      ]

  abbrev holds : Result String Bool → Bool
  holds (ok valid) = valid
  holds (err _) = false

  unfoldable pub verify_client_authentication : Headers → String → Bool
  unfolding bearer_token verify_access_token
  verify_client_authentication headers username = elim (bearer_token headers) [
    | none ↦ false
    | some token ↦ holds (verify_access_token token username)
  ]

  unfoldable pub extract_username_from_headers : Headers → Option String
  unfolding bearer_token
  extract_username_from_headers headers = and_then (bearer_token headers) tokens.username_of
