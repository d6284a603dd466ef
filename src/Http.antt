-- ===== src/Http.antt =====
-- forensic-ui/src/api/client.ts: the Axios instance that every API call goes through, with the
-- part of the browser that it reads and writes.
use forensic_chain.Common.{
  ℕ, String, Bool, false, Option, none, some, List, [], if◌then◌else◌, eqb, is_present,
}
use Prim.Native.String.{◌++◌}

-- The entry `fc_token` of localStorage, and the page load that `window.location.href = …` asked
-- for, if any.
pub record Browser : Type 0 where
  pub token : Option String
  pub location : Option String

pub data Method : Type 0 where
  get post patch delete : Method

-- A field of a JSON object, or a part of a FormData: a text, or the chosen file by its name.
pub data Field : Type 0 where
  text : String → Field
  file : String → Field

pub data Body : Type 0 where
  empty : Body
  json : List (String × Field) → Body
  form : List (String × Field) → Body

pub record HttpRequest : Type 0 where
  pub method : Method
  pub url : String
  pub params : List (String × String)
  pub body : Body
  pub content_type : String
  pub response_type : Option String
  pub authorization : Option String

-- What a call throws: an Axios error with the status of its response, if there was one, and its
-- message; another `Error` with its message; or a value that is no `Error`.
pub data Failure : Type 0 where
  axios_error : Option ℕ → String → Failure
  error : String → Failure
  other : Failure

-- How a promise settles.
pub data Reply (A : Type 0) : Type 0 where
  resolved : A → Reply A
  rejected : Failure → Reply A

-- `axios.isAxiosError(err) ? err.response?.status : undefined`
abbrev pub status_of : Failure → Option ℕ
status_of (axios_error status message) = status
status_of (error message) = none
status_of other = none

-- `… === n` at `number | undefined`
abbrev pub is_status : Option ℕ → ℕ → Bool
is_status none n = false
is_status (some m) n = eqb m n

-- `err instanceof Error ? err.message : d`
abbrev pub message_or : Failure → String → String
message_or (axios_error status message) d = message
message_or (error message) d = message
message_or other d = d

-- `axios.create`: the headers of the instance, before a call gives its own.
abbrev pub client : Method → String → Body → HttpRequest
client m url body = record {
  method = m;
  url = url;
  params = [];
  body = body;
  content_type = "application/json";
  response_type = none;
  authorization = none;
}

bearer : Option String → Option String
bearer none = none
bearer (some token) = if is_present (some token) then some ("Bearer " ++ token) else none

-- The request interceptor.
unfoldable pub on_request : Browser → HttpRequest → HttpRequest
unfolding bearer
on_request b r = if is_present b.token then record r { authorization = bearer b.token } else r

-- The failure side of the response interceptor; it rejects with the same error again.
unfoldable pub on_failure : Browser → Failure → Browser
on_failure b err =
    if is_status (status_of err) 401 then record b { token = none; location = some "/login" } else b

-- Both sides of the response interceptor.
unfoldable pub on_reply : {A : Type 0} → Browser → Reply A → Browser
unfolding on_failure
on_reply b (resolved a) = b
on_reply b (rejected err) = on_failure b err
